-- ===== src/Server/Steps/Ticked.antt =====
-- Publishing and ticks keep the tables of sql/pgque.sql valid.
use mathlib.Core.Path.{subst}
use pg_que.Base.{
  ℕ, ◌≤◌, ◌<◌, ◌≡◌, refl, sym, ap, ◌∙◌, Bool, true, false, Option, some, List, [], ◌∷◌, All, ◌==◌,
  ◌&&◌, not, String, str_eq, arith, if◌then◌else◌, Bool-cases, Option-cases, inl, inr, equal, ltb,
}
use pg_que.Base.Selections.{select}
use pg_que.Server.Snapshots.{Snapshot, IsSnapshot, visible}
use pg_que.Server.BatchSql.Partition.{IsLater}
use pg_que.Server.Tables.{Db, Queue, Tick, Sequence, next_value, drawn, put, find}
use pg_que.Server.Tables.Updates.{put_self}
use pg_que.Server.Ticks.{
  ticks_of, ticker, new_tick, tick_after, newest, newer, is_stale, queue_named, raised_to,
  external_tick, ticker_external, push_events, force_tick,
}
use pg_que.Server.BatchSql.{Event}
use pg_que.Server.Events.{NewEvent, numbered, inserted, insert_event_raw}
use pg_que.Server.Steps.Ordered.{later_same, old_ticks-insert}
use pg_que.Server.Steps.Valid.{Descends, Added, more, IsValid}

-- The newest of ticks that descend is the first.
pub newest_first :
    (b : ℕ) (s : Snapshot) (t : Tick) (ts : List Tick)
    → Descends b s (t ∷ ts)
    → newest (t ∷ ts) ≡ some t
unfolding newest
newest_first b s t [] d = refl
newest_first b s t (u ∷ ts) (below, snap, later, (lower, snap', later', rest)) =
    ap (λ o. some (newer t o))
      (newest_first t.tick_id t.tick_snapshot u ts (lower, snap', later', rest))
    ∙ stays (ltb t.tick_id u.tick_id) (ground (arith, lower))
  where
    stays : (c : Bool) → c ≡ false → some (if c then u else t) ≡ some t
    stays c e = rw e refl

-- Ticks that are not stale come after all others.
not_stale :
    (b id : ℕ) (s : Snapshot) (ts : List Tick)
    → Descends b s ts
    → is_stale (newest ts) id ≡ false
    → Descends id s ts
unfolding is_stale
not_stale b id s [] d h = tt
not_stale b id s (t ∷ ts) (below, snap, later, rest) h =
    let above : is_stale (some t) id ≡ false =
      subst (λ o. is_stale o id ≡ false) (newest_first b s t ts (below, snap, later, rest)) h in
    (ground (arith, above), snap, later, rest)

counted-put :
    (es : ℕ → Sequence) (queue : ℕ) (seq : Sequence) (ts : List Tick)
    → (es queue).last_value ≤ seq.last_value
    → All (λ t. t.tick_event_seq ≤ (es t.tick_queue).last_value) ts
    → All (λ t. t.tick_event_seq ≤ (put queue seq es t.tick_queue).last_value) ts
counted-put es queue seq [] h k = tt
counted-put es queue seq (t ∷ ts) h (k, ks) =
    (grind (arith, h, k), counted-put es queue seq ts h ks)

pub called-put :
    (ts : ℕ → Sequence) (queue : ℕ) (seq : Sequence) (qs : List Queue)
    → seq.is_called ≡ true
    → All (λ q. (ts q.queue_id).is_called ≡ true) qs
    → All (λ q. (put queue seq ts q.queue_id).is_called ≡ true) qs
called-put ts queue seq [] h k = tt
called-put ts queue seq (q ∷ qs) h (k, ks) = (grind (arith, h, k), called-put ts queue seq qs h ks)

pub in_order-put :
    (seqs : ℕ → Sequence) (snap : Snapshot) (ticks : List Tick) (t : Tick) (seq : Sequence)
    → IsSnapshot t.tick_snapshot
    → IsLater t.tick_snapshot snap
    → Descends t.tick_id t.tick_snapshot (ticks_of t.tick_queue ticks)
    → t.tick_id < next_value seq
    → ((queue : ℕ) → Descends (next_value (seqs queue)) snap (ticks_of queue ticks))
    → (queue : ℕ)
    → Descends (next_value (put t.tick_queue seq seqs queue)) snap (ticks_of queue (t ∷ ticks))
unfolding ticks_of select
in_order-put seqs snap ticks t seq is later d low all queue =
    elim (Bool-cases (t.tick_queue == queue)) [
      | inl same ↦
          subst
            (λ x. Descends (next_value (put t.tick_queue seq seqs x)) snap (ticks_of x (t ∷ ticks)))
            (equal t.tick_queue queue same) (rw (self t.tick_queue) (low, is, later, d))
      | inr other ↦ rw (other, apart t.tick_queue queue other) (all queue)
    ]
  where
    self : (n : ℕ) → (n == n) ≡ true
    self n = ground arith

    apart : (m n : ℕ) → (m == n) ≡ false → (n == m) ≡ false
    apart m n h = ground arith

module _ (n : ℕ) (s : Sequence) where
  raised_above : s.is_called ≡ true → n < next_value (raised_to n s)
  raised_above h = elim (Bool-cases (ltb s.last_value n)) [
    | inl below ↦ rw below (omega arith)
    | inr above ↦ rw (above, h) (ground (arith, above))
  ]

  raised_up : s.last_value ≤ (raised_to n s).last_value
  raised_up = elim (Bool-cases (ltb s.last_value n)) [
    | inl below ↦ rw below (ground (arith, below))
    | inr above ↦ rw above (omega arith)
  ]

  raised_least : n ≤ (raised_to n s).last_value
  raised_least = elim (Bool-cases (ltb s.last_value n)) [
    | inl below ↦ rw below (omega arith)
    | inr above ↦ rw above (ground (arith, above))
  ]

  raised_called : s.is_called ≡ true → (raised_to n s).is_called ≡ true
  raised_called h = elim (Bool-cases (ltb s.last_value n)) [
    | inl below ↦ rw below refl
    | inr above ↦ rw above h
  ]

put_here :
    (es : ℕ → Sequence) (queue n : ℕ) (s : Sequence)
    → n ≤ s.last_value
    → n ≤ (put queue s es queue).last_value
put_here es queue n s h = subst (λ x. n ≤ x.last_value) (sym (put_self queue s es)) h

module _ {base : Db} (q : Queue) (db : Db) (v : IsValid base db) where
  new_tick-IsValid : q.queue_id ≤ db.queue_id_seq → IsValid base (new_tick q db)
  unfolding new_tick
  new_tick-IsValid known =
      let seq = db.tick_seq q.queue_id in
      record {
        drawn = v.drawn;
        own_batch = v.own_batch;
        own_row = v.own_row;
        own_retry = v.own_retry;
        current = v.current;
        running = v.running;
        in_order =
            in_order-put db.tick_seq db.snapshot db.ticks _ (drawn seq) v.current
              (later_same db.snapshot) (v.in_order q.queue_id) (omega arith) v.in_order;
        counted = (omega arith, v.counted);
        since = v.since;
        added = v.added;
        old_ticks = λ queue id t h.
            old_ticks-insert (next_value seq) db.snapshot q.queue_id db.ticks
              (v.in_order q.queue_id) _ refl (omega arith) queue id t (v.old_ticks queue id t h);
        known_queues = v.known_queues;
        known_ticks = (known, v.known_ticks);
        called = called-put db.tick_seq q.queue_id (drawn seq) db.queues refl v.called;
      }

  external_tick-IsValid :
      (id timestamp event_seq : ℕ)
      → q.queue_id ≤ db.queue_id_seq
      → (db.tick_seq q.queue_id).is_called ≡ true
      → is_stale (newest (ticks_of q.queue_id db.ticks)) id ≡ false
      → IsValid base (external_tick q id timestamp event_seq db)
  unfolding external_tick
  external_tick-IsValid id timestamp event_seq known called fresh =
      let seq = db.tick_seq q.queue_id in
      let events = db.event_seq q.queue_id in
      record {
        drawn = v.drawn;
        own_batch = v.own_batch;
        own_row = v.own_row;
        own_retry = v.own_retry;
        current = v.current;
        running = v.running;
        in_order =
            in_order-put db.tick_seq db.snapshot db.ticks _ (raised_to id seq) v.current
              (later_same db.snapshot)
              (not_stale (next_value seq) id db.snapshot (ticks_of q.queue_id db.ticks)
                (v.in_order q.queue_id) fresh)
              (raised_above id seq called) v.in_order;
        counted = (
          put_here db.event_seq q.queue_id event_seq (raised_to event_seq events)
              (raised_least event_seq events),
          counted-put db.event_seq q.queue_id (raised_to event_seq events) db.ticks
              (raised_up event_seq events) v.counted,
        );
        since = v.since;
        added = v.added;
        old_ticks = λ queue number t h.
            old_ticks-insert id db.snapshot q.queue_id db.ticks
              (not_stale (next_value seq) id db.snapshot (ticks_of q.queue_id db.ticks)
                (v.in_order q.queue_id) fresh)
              _ refl (omega arith) queue number t (v.old_ticks queue number t h);
        known_queues = v.known_queues;
        known_ticks = (known, v.known_ticks);
        called =
            called-put db.tick_seq q.queue_id (raised_to id seq) db.queues
              (raised_called id seq called) v.called;
      }

  more_events-IsValid :
      (s : Sequence)
      → (db.event_seq q.queue_id).last_value ≤ s.last_value
      → IsValid base (record db { event_seq = put q.queue_id s db.event_seq })
  more_events-IsValid s h = record {
    drawn = v.drawn;
    own_batch = v.own_batch;
    own_row = v.own_row;
    own_retry = v.own_retry;
    current = v.current;
    running = v.running;
    in_order = v.in_order;
    counted = counted-put db.event_seq q.queue_id s db.ticks h v.counted;
    since = v.since;
    added = v.added;
    old_ticks = v.old_ticks;
    known_queues = v.known_queues;
    known_ticks = v.known_ticks;
    called = v.called;
  }

found :
    (P : Queue → Type 0) (p : Queue → Bool) (qs : List Queue) (q : Queue)
    → All P qs
    → find p qs ≡ some q
    → P q
found P p [] q h k = absurd (cc)
found P p (x ∷ qs) q (h, hs) k = elim (Bool-cases (p x)) [
  | inl hit ↦ subst P (some_of (sym (rw (hit, find) refl) ∙ k)) h
  | inr miss ↦ found P p qs q hs (sym (rw (miss, find) refl) ∙ k)
]
  where
    some_of : {a b : Queue} → Path (Option Queue) (some a) (some b) → a ≡ b
    some_of e = cc

module _ {base : Db} (q : Queue) (db : Db) (v : IsValid base db) where
  numbered-IsValid : IsValid base (numbered q db)
  numbered-IsValid =
      more_events-IsValid q db v (drawn (db.event_seq q.queue_id))
        (next_above (db.event_seq q.queue_id))
    where
      next_above : (s : Sequence) → s.last_value ≤ next_value s
      next_above s = ground arith

  -- The transaction is not visible to its own snapshot, nor to earlier ones.
  unseen : visible base.snapshot db.xid ≡ false
  unseen = elim (Bool-cases (visible base.snapshot db.xid)) [
    | inl seen ↦ absurd (cc (v.since.stays db.xid seen, v.running))
    | inr not_seen ↦ not_seen
  ]

  inserted-IsValid : (ev : Event) → ev.ev_txid ≡ db.xid → IsValid base (inserted q ev db)
  inserted-IsValid ev own = record {
    drawn = v.drawn;
    own_batch = v.own_batch;
    own_row = v.own_row;
    own_retry = v.own_retry;
    current = v.current;
    running = v.running;
    in_order = v.in_order;
    counted = v.counted;
    since = v.since;
    added = λ queue. elim (Bool-cases (queue == q.queue_id)) [
      | inl here ↦ rw here (
          subst (λ x. Added base.snapshot (base.events x) (ev ∷ db.events q.queue_id))
            (sym (equal queue q.queue_id here)) (more (rw own unseen) (v.added q.queue_id)))
      | inr other ↦ rw other (v.added queue)
    ];
    old_ticks = v.old_ticks;
    known_queues = v.known_queues;
    known_ticks = v.known_ticks;
    called = v.called;
  }

  push_events-IsValid : IsValid base (push_events q db)
  unfolding push_events
  push_events-IsValid = more_events-IsValid q db v _ (ground arith)

module _ {base : Db} (queue_name : String) (db : Db) (v : IsValid base db) where
  pub insert_event_raw-IsValid : (e : NewEvent) → IsValid base (insert_event_raw queue_name e db).1
  unfolding insert_event_raw
  insert_event_raw-IsValid e =
      elim (Option-cases (find (λ q. str_eq q.queue_name queue_name) db.queues)) [
        | inl none_there ↦ rw (none_there, insert_event_raw) v
        | inr (q, there) ↦
            rw (there, insert_event_raw)
              (elim (Bool-cases (q.queue_disable_insert && not db.is_replica)) [
                | inl off ↦ rw off (numbered-IsValid q db v)
                | inr on ↦
                    rw on (inserted-IsValid q (numbered q db) (numbered-IsValid q db v) _ refl)
              ])
      ]

  pub ticker_external-IsValid :
      (id timestamp event_seq : ℕ)
      → IsValid base (ticker_external queue_name id timestamp event_seq db).1
  unfolding ticker_external
  ticker_external-IsValid id timestamp event_seq = elim (Option-cases (queue_named db queue_name)) [
    | inl none_there ↦ rw (none_there, ticker_external) v
    | inr (q, there) ↦
        let known = found (λ q. q.queue_id ≤ db.queue_id_seq) _ db.queues q v.known_queues there in
        let called =
          found (λ q. (db.tick_seq q.queue_id).is_called ≡ true) _ db.queues q v.called there in
        rw (there, ticker_external)
          (elim (Bool-cases (is_stale (newest (ticks_of q.queue_id db.ticks)) id)) [
            | inl stale ↦ rw stale (grind (arith, v))
            | inr fresh ↦ rw fresh (
                grind (
                  arith,
                  v,
                  external_tick-IsValid q db v id timestamp event_seq known called fresh,
                ))
          ])
  ]

  pub force_tick-IsValid : IsValid base (force_tick queue_name db).1
  unfolding force_tick
  force_tick-IsValid = grind (arith, v, pushed)
    where
      pushed : (q : Queue) → IsValid base (push_events q db)
      pushed q = push_events-IsValid q db v

  pub ticker-IsValid : IsValid base (ticker queue_name db).1
  unfolding ticker tick_after
  ticker-IsValid = elim (Option-cases (queue_named db queue_name)) [
    | inl none_there ↦ rw (none_there, ticker) v
    | inr (q, there) ↦
        let known = found (λ q. q.queue_id ≤ db.queue_id_seq) _ db.queues q v.known_queues there in
        rw (there, ticker) (grind (arith, v, new_tick-IsValid q db v known))
  ]
