-- ===== src/Server/Steps/Created.antt =====
-- A queue that is created keeps the tables of sql/pgque.sql valid.
use pg_que.Base.{
  ℕ, equal, ◌+◌, ◌≤◌, ◌≡◌, refl, ap, String, str_eq, true, false, some, List, [], ◌∷◌, ◌==◌, All,
  Bool-cases, inl, inr, arith,
}
use text.Mathlib.TextEquality.{eq_iff}
use pg_que.Base.Selections.{select}
use pg_que.Exec.{ok}
use pg_que.Server.Snapshots.{Snapshot}
use pg_que.Server.Tables.{Db, Queue, Tick, Sequence, next_value, drawn, put, exists}
use pg_que.Server.Tables.Updates.{put_self}
use pg_que.Server.Ticks.{ticks_of, newest, new_tick, ticker}
use pg_que.Server.Queues.{default_queue, new_sequence, insert_queue, create_queue}
use pg_que.Server.Steps.Valid.{Descends, IsValid}
use pg_que.Server.Steps.Ordered.{later_same, old_ticks-insert}
use pg_que.Server.Steps.Rows.{All-map}
use pg_que.Server.Steps.Ticked.{in_order-put}

-- A value for a new id changes none of the old.
put_other : {A : Type 0} (n m : ℕ) (a : A) (f : ℕ → A) → m ≤ n → put (n + 1) a f m ≡ f m
put_other n m a f h = rw (apart n m h) refl
  where
    apart : (n m : ℕ) → m ≤ n → (m == n + 1) ≡ false
    apart n m h = ground arith

-- A new id has no ticks.
no_ticks : (n : ℕ) (ts : List Tick) → All (λ t. t.tick_queue ≤ n) ts → ticks_of (n + 1) ts ≡ []
unfolding ticks_of select
no_ticks n [] h = refl
no_ticks n (t ∷ ts) (h, hs) = rw (apart n t.tick_queue h) (no_ticks n ts hs)
  where
    apart : (n m : ℕ) → m ≤ n → (m == n + 1) ≡ false
    apart n m h = ground arith

counted-new :
    (n : ℕ) (s : Sequence) (es : ℕ → Sequence) (ts : List Tick)
    → All (λ t. t.tick_queue ≤ n) ts
    → All (λ t. t.tick_event_seq ≤ (es t.tick_queue).last_value) ts
    → All (λ t. t.tick_event_seq ≤ (put (n + 1) s es t.tick_queue).last_value) ts
counted-new n s es [] h k = tt
counted-new n s es (t ∷ ts) (h, hs) (k, ks) = (
  omega (arith, k, ap (λ (x : Sequence). x.last_value) (put_other n t.tick_queue s es h)),
  counted-new n s es ts hs ks,
)

called-new :
    (n : ℕ) (s a : Sequence) (seqs : ℕ → Sequence) (qs : List Queue)
    → a.is_called ≡ true
    → All (λ q. (seqs q.queue_id).is_called ≡ true) qs
    → All (λ q. (put n a (put n s seqs) q.queue_id).is_called ≡ true) qs
called-new n s a seqs [] h k = tt
called-new n s a seqs (q ∷ qs) h (k, ks) = (
  elim (Bool-cases (q.queue_id == n)) [ inl here ↦ rw here h | inr other ↦ rw other k ],
  called-new n s a seqs qs h ks,
)

in_order-new :
    (n : ℕ) (s : Sequence) (seqs : ℕ → Sequence) (snap : Snapshot) (ticks : List Tick)
    → All (λ t. t.tick_queue ≤ n) ticks
    → ((queue : ℕ) → Descends (next_value (seqs queue)) snap (ticks_of queue ticks))
    → (queue : ℕ) → Descends (next_value (put (n + 1) s seqs queue)) snap (ticks_of queue ticks)
in_order-new n s seqs snap ticks h all queue = elim (Bool-cases (queue == n + 1)) [
  | inl new ↦ rw (equal queue (n + 1) new, no_ticks n ticks h) tt
  | inr old ↦ rw old (all queue)
]

module _ {base : Db} (db : Db) (v : IsValid base db) (name : String) where
  abbrev created : Db
  created = new_tick (default_queue (db.queue_id_seq + 1) name) (insert_queue name db)

  created-IsValid : IsValid base created
  unfolding new_tick insert_queue
  created-IsValid =
      let n = db.queue_id_seq in
      let seq = put (n + 1) new_sequence db.tick_seq (n + 1) in
      let none_yet = no_ticks n db.ticks v.known_ticks in
      record {
        drawn = v.drawn;
        own_batch = v.own_batch;
        own_row = v.own_row;
        own_retry = v.own_retry;
        current = v.current;
        running = v.running;
        in_order =
            in_order-put (put (n + 1) new_sequence db.tick_seq) db.snapshot db.ticks _ (drawn seq)
              v.current (later_same db.snapshot) (rw none_yet tt) (omega arith)
              (in_order-new n new_sequence db.tick_seq db.snapshot db.ticks v.known_ticks
                v.in_order);
        counted =
            (omega arith, counted-new n new_sequence db.event_seq db.ticks v.known_ticks v.counted);
        since = v.since;
        added = v.added;
        old_ticks = λ queue id t h.
            old_ticks-insert 0 db.snapshot (n + 1) db.ticks (rw none_yet tt) _ refl (omega arith)
              queue id t (v.old_ticks queue id t h);
        known_queues =
            (omega arith, All-map _ _ db.queues (λ q h. omega (arith, h)) v.known_queues);
        known_ticks = (omega arith, All-map _ _ db.ticks (λ t h. omega (arith, h)) v.known_ticks);
        called = (
          ap (λ (x : Sequence). x.is_called)
              (put_self (n + 1) (drawn seq) (put (n + 1) new_sequence db.tick_seq)),
          called-new (n + 1) new_sequence (drawn seq) db.tick_seq db.queues refl v.called,
        );
      }

  -- The new queue gets its first tick at once.
  ticker-created : ticker name (insert_queue name db) ≡ (
    ok (
        some
          (next_value (put (db.queue_id_seq + 1) new_sequence db.tick_seq (db.queue_id_seq + 1)))),
    created,
  )
  unfolding ticker insert_queue newest
  ticker-created =
      rw ((eq_iff name name).1 refl, ticker)
        (rw (no_ticks db.queue_id_seq db.ticks v.known_ticks) refl)

  pub create_queue-IsValid : IsValid base (create_queue name db).1
  unfolding create_queue
  create_queue-IsValid = elim (Bool-cases (exists (λ q. str_eq q.queue_name name) db.queues)) [
    | inl there ↦ rw there (grind (arith, v))
    | inr new ↦ rw (new, ticker-created) (grind (arith, v, created-IsValid))
  ]
