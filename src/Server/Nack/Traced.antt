-- ===== src/Server/Nack/Traced.antt =====
-- What `nack` of sql/pgque.sql comes to when it returns, in one step: two tables and a sequence change.
use pg_que.Base.{
  ℕ, ◌+◌, String, ◌≡◌, refl, ap, Bool, true, false, Option, none, some, List, [], ◌∷◌, ◌==◌, leb,
  Option-cases, Bool-cases, inl, inr, if◌then◌else◌, arith,
}
use pg_que.Base.Selections.{select}
use pg_que.Exec.{Result, ok, follow, pure}
use pg_que.Server.BatchSql.{Event}
use pg_que.Server.Tables.{Db, Subscription, Retry, DeadLetter, find, exists, holder}
use pg_que.Server.Batches.{raise_exception, get_batch_events, batch_rows}
use pg_que.Server.Nack.{
  or_else, insert_retries, retry_rows, event_retry, dead_consumer, is_dead, event_dead, settle,
  limit_of, nack,
}

-- The dead letters with an event's, unless it has one.
abbrev pub bury : Db → Subscription → Event → String → List DeadLetter
bury db s ev reason =
    if exists (is_dead s.sub_queue (dead_consumer db s) ev.ev_id) db.dead_letter
    then db.dead_letter
    else record {
      dl_id = db.dl_id_seq + 1;
      dl_queue_id = s.sub_queue;
      dl_consumer_id = dead_consumer db s;
      dl_time = db.now;
      dl_reason = reason;
      dl_event = record ev { ev_owner = none };
    }
      ∷ db.dead_letter

-- The retry queue with the rows of some events, unless one has a row.
abbrev pub postpone : Db → Subscription → List Event → ℕ → List Retry
postpone db s evs after =
    or_else (insert_retries (db.now + after) s evs db.retry_queue) db.retry_queue

abbrev pub same_id : ℕ → Event → Bool
same_id id ev = ev.ev_id == id

-- The tables after the nack of an event at a limit, where `evs` are the events with its number.
abbrev pub park : Db → Subscription → List Event → Event → ℕ → Option String → ℕ → Db
park db s evs ev after reason limit = record db {
  retry_queue =
      if leb limit (or_else ev.ev_retry 0) then db.retry_queue else postpone db s evs after;
  dead_letter =
      if leb limit (or_else ev.ev_retry 0)
      then bury db s ev (or_else reason "max retries exceeded")
      else db.dead_letter;
  dl_id_seq = if leb limit (or_else ev.ev_retry 0) then db.dl_id_seq + 1 else db.dl_id_seq;
}

-- What `nack` reads before it changes anything.
pub record Found (db : Db) (batch_id msg_id : ℕ) : Type 0 where
  pub sub : Subscription
  pub limit : ℕ
  pub events : List Event
  pub event : Event
  pub held : holder db batch_id ≡ some sub
  pub limited : limit_of db batch_id ≡ some limit
  pub rows : batch_rows db batch_id ≡ some events
  pub among : find (same_id msg_id) events ≡ some event

pub find-select :
    (p : Event → Bool) (evs : List Event) (ev : Event)
    → find p evs ≡ some ev
    → (rest : List Event) × (select p evs ≡ ev ∷ rest)
unfolding select
find-select p [] ev h = absurd (cc)
find-select p (x ∷ evs) ev h = elim (Bool-cases (p x)) [
  | inl yes_it_is ↦
      let same : some x ≡ some ev = rw (← pick (p x) yes_it_is x (find p evs)) h in
      rw yes_it_is (select p evs, ap (λ y. y ∷ select p evs) (cc same))
  | inr no_it_is_not ↦
      rw no_it_is_not (find-select p evs ev (rw (← skip (p x) no_it_is_not x (find p evs)) h))
]
  where
    pick :
        (b : Bool) → b ≡ true → (x : Event) (o : Option Event) → (if b then some x else o) ≡ some x
    pick b e x o = rw e refl

    skip : (b : Bool) → b ≡ false → (x : Event) (o : Option Event) → (if b then some x else o) ≡ o
    skip b e x o = rw e refl

pub found_id :
    (id : ℕ) (evs : List Event) (ev : Event) → find (same_id id) evs ≡ some ev → ev.ev_id ≡ id
found_id id [] ev h = absurd (cc)
found_id id (x ∷ evs) ev h = ground (arith, found_id id evs ev)

retry_rows-eq :
    (after : ℕ) (s : Subscription) (ev : Event) (rest : List Event) (db : Db)
    → follow {B = ℕ}
        (λ n. pure 1)
        (retry_rows (db.now + after) s (ev ∷ rest) db).0
        (retry_rows (db.now + after) s (ev ∷ rest) db).1
      ≡ (ok 1, record db { retry_queue = postpone db s (ev ∷ rest) after })
unfolding retry_rows
retry_rows-eq after s ev rest db =
    elim (Option-cases (insert_retries (db.now + after) s (ev ∷ rest) db.retry_queue)) [
      | inl refused ↦ rw (refused, retry_rows) refl
      | inr (rs, inserted) ↦ rw (inserted, retry_rows) refl
    ]

module _ (db : Db) (batch_id msg_id : ℕ) (f : Found db batch_id msg_id) (after : ℕ)
    (reason : Option String) where
  -- The events of the batch that have the number.
  abbrev pub matching : List Event
  matching = select (same_id msg_id) f.events

  pub nack-park :
      nack batch_id msg_id after reason db
      ≡ (ok 1, park db f.sub matching f.event after reason f.limit)
  unfolding nack settle event_retry event_dead get_batch_events
  nack-park =
      let (rest, selected) = find-select (same_id msg_id) f.events f.event f.among in
      elim (Bool-cases (leb f.limit (or_else f.event.ev_retry 0))) [
        | inl spent ↦
            rw (f.limited, nack)
              (rw (f.rows, get_batch_events)
                (rw (f.among, follow) (rw (spent, settle, event_dead, f.held) refl)))
        | inr left ↦
            rw (f.limited, nack)
              (rw (f.rows, get_batch_events)
                (rw (f.among, follow)
                  (rw (left, settle, event_retry, f.held)
                    (rw (f.rows, get_batch_events, found_id msg_id f.events f.event f.among)
                      (rw selected (retry_rows-eq after f.sub f.event rest db))))))
      ]

-- A nack that returns has found its event, and one that raises has changed nothing.
pub data Nacked (db : Db) (batch_id msg_id after : ℕ) (reason : Option String)
    : Result ℕ × Db → Type 0 where
  parked :
      (f : Found db batch_id msg_id)
      → Nacked db batch_id msg_id after reason (
        ok 1,
        park db f.sub (matching db batch_id msg_id f after reason) f.event after reason f.limit,
      )
  refused : (text : String) → Nacked db batch_id msg_id after reason (raise_exception text db)

module _ (db : Db) (batch_id msg_id after : ℕ) (reason : Option String) where
  limit_of-none : holder db batch_id ≡ none → limit_of db batch_id ≡ none
  unfolding limit_of
  limit_of-none h = rw (h, limit_of) refl

  pub nack-Nacked : Nacked db batch_id msg_id after reason (nack batch_id msg_id after reason db)
  unfolding nack get_batch_events
  nack-Nacked = elim (Option-cases (holder db batch_id)) [
    | inl gone ↦ rw (limit_of-none gone, nack) (refused _)
    | inr (s, held) ↦ elim (Option-cases (limit_of db batch_id)) [
      | inl none_there ↦ rw (none_there, nack) (refused _)
      | inr (limit, limited) ↦ elim (Option-cases (batch_rows db batch_id)) [
        | inl no_rows ↦ rw (limited, nack) (rw (no_rows, get_batch_events) (refused _))
        | inr (evs, rows) ↦ elim (Option-cases (find (same_id msg_id) evs)) [
          | inl missing ↦
              rw (limited, nack) (rw (rows, get_batch_events) (rw (missing, follow) (refused _)))
          | inr (ev, among) ↦
              let f : Found db batch_id msg_id = record {
                sub = s;
                limit = limit;
                events = evs;
                event = ev;
                held = held;
                limited = limited;
                rows = rows;
                among = among;
              } in
              rw (nack-park db batch_id msg_id f after reason) (parked f)
        ]
      ]
    ]
  ]
