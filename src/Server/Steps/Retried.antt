-- ===== src/Server/Steps/Retried.antt =====
-- Messages received, retried and given up keep the tables of sql/pgque.sql valid.
use mathlib.Core.Path.{subst, ap₂}
use pg_que.Base.{
  ℕ, ◌+◌, ◌≡◌, String, Bool, true, false, Option, none, some, List, [], ◌∷◌, ◌==◌, arith, ltb, leb,
  ◌&&◌, length, equal, Bool-cases, Option-cases, inl, inr,
}
use pg_que.Base.Selections.{select}
use pg_que.Value.{Value}
use pg_que.Exec.{Result, Exec, ok, err, follow, pure, ◌>>=◌, ◌>>◌}
use pg_que.Server.BatchSql.{Event}
use pg_que.Server.Tables.{Db, Subscription, Retry, exists, holder, find}
use pg_que.Server.Batches.{
  batch_rows, get_batch_events, next_batch, receive_batch, receive, finish_batch, yield_messages,
}
use pg_que.Server.Nack.{
  is_retry, retry_row, insert_retries, retry_rows, event_retry, event_dead, settle, nack, limit_of,
  or_else,
}
use pg_que.Server.Retries.{
  return_one, return_all, maint_retry_events, queue_of, due, returned_event,
}
use pg_que.Server.Events.{insert_event_raw}
use pg_que.Server.Steps.Rows.{none_selected}
use pg_que.Server.Steps.Valid.{IsValid, AreOwnRetries, others-IsValid, retries-IsValid}
use pg_que.Server.Steps.Subscribed.{next_batch-IsValid, finish_batch-IsValid}
use pg_que.Server.Steps.Enrolled.{own_retry-select}
use pg_que.Server.Steps.Ticked.{insert_event_raw-IsValid}

pub follow-IsValid :
    {base : Db} {A B : Type 0} (f : A → Exec Db B) (r : Result A) (db : Db)
    → IsValid base db
    → ((a : A) → IsValid base (f a db).1)
    → IsValid base (follow f r db).1
follow-IsValid f (ok a) db v h = h a
follow-IsValid f (err e) db v h = v

returned-IsValid :
    {base : Db} {A B : Type 0} (m : Exec Db A) (b : B) (db : Db)
    → IsValid base (m db).1
    → IsValid base ((m >> pure b) db).1
returned-IsValid m b db v = follow-IsValid (λ a. pure b) (m db).0 (m db).1 v (λ a. v)

-- A row with a new key.
new_key :
    (r : Retry) (rs : List Retry)
    → exists (is_retry r.ev_owner r.ev_id) rs ≡ false
    → AreOwnRetries rs
    → AreOwnRetries (r ∷ rs)
unfolding select
new_key r rs fresh h owner id = elim (Bool-cases (is_retry owner id r)) [
  | inl same ↦
      let (one, other) = both (r.ev_owner == owner) (r.ev_id == id) same in
      let e : length (select (is_retry r.ev_owner r.ev_id) rs)
          ≡ length (select (is_retry owner id) rs) =
        ap₂ (λ x y. length (select (is_retry x y) rs)) (equal r.ev_owner owner one)
          (equal r.ev_id id other) in
      rw same (omega (arith, e, none_selected (is_retry r.ev_owner r.ev_id) rs fresh))
  | inr other ↦ rw other (h owner id)
]
  where
    both : (a b : Bool) → (a && b) ≡ true → (a ≡ true) × (b ≡ true)
    both a b e = ground arith

insert_retries-AreOwnRetries :
    (after : ℕ) (s : Subscription) (evs : List Event) (rs rs' : List Retry)
    → AreOwnRetries rs
    → insert_retries after s evs rs ≡ some rs'
    → AreOwnRetries rs'
unfolding insert_retries
insert_retries-AreOwnRetries after s [] rs rs' h e = subst AreOwnRetries (same e) h
  where
    same : {a b : List Retry} → Path (Option (List Retry)) (some a) (some b) → a ≡ b
    same e = cc
insert_retries-AreOwnRetries after s (ev ∷ evs) rs rs' h e =
    elim (Bool-cases (exists (is_retry s.sub_id ev.ev_id) rs)) [
      | inl there ↦ absurd (refused (rw (there, insert_retries) at e))
      | inr fresh ↦
          insert_retries-AreOwnRetries after s evs (retry_row after s ev ∷ rs) rs'
            (new_key (retry_row after s ev) rs fresh h) (rw (fresh, insert_retries) at e)
    ]
  where
    refused : {a : List Retry} → Path (Option (List Retry)) none (some a) → ⊥
    refused e = cc

module _ {base : Db} (db : Db) (v : IsValid base db) where
  retry_rows-IsValid :
      (after : ℕ) (s : Subscription) (evs : List Event) → IsValid base (retry_rows after s evs db).1
  unfolding retry_rows
  retry_rows-IsValid after s [] = v
  retry_rows-IsValid after s (ev ∷ evs) =
      elim (Option-cases (insert_retries after s (ev ∷ evs) db.retry_queue)) [
        | inl refused ↦ rw (refused, retry_rows) v
        | inr (rs, e) ↦
            rw (e, retry_rows)
              (retries-IsValid db v rs
                (insert_retries-AreOwnRetries after s (ev ∷ evs) db.retry_queue rs v.own_retry e))
      ]

  -- What follows the events of a batch.
  read-IsValid :
      {B : Type 0} (batch_id : ℕ) (f : List Event → Exec Db B)
      → ((evs : List Event) → IsValid base (f evs db).1)
      → IsValid base ((get_batch_events batch_id >>= f) db).1
  unfolding get_batch_events
  read-IsValid batch_id f h = elim (Option-cases (batch_rows db batch_id)) [
    | inl none_there ↦ rw (none_there, get_batch_events) v
    | inr (evs, rows) ↦ rw (rows, get_batch_events) (h evs)
  ]

  event_retry-IsValid : (batch_id id after : ℕ) → IsValid base (event_retry batch_id id after db).1
  unfolding event_retry
  event_retry-IsValid batch_id id after = elim (Option-cases (holder db batch_id)) [
    | inl none_there ↦ rw (none_there, event_retry) v
    | inr (s, there) ↦
        rw (there, event_retry)
          (read-IsValid batch_id _
            (λ evs. retry_rows-IsValid _ s (select (λ ev. ev.ev_id == id) evs)))
  ]

  event_dead-IsValid :
      (batch_id : ℕ) (ev : Event) (reason : String)
      → IsValid base (event_dead batch_id ev reason db).1
  unfolding event_dead
  event_dead-IsValid batch_id ev reason = elim (Option-cases (holder db batch_id)) [
    | inl none_there ↦ rw (none_there, event_dead) v
    | inr (s, there) ↦ rw (there, event_dead) (others-IsValid db v _ _ _ _ _ _)
  ]

  settle-IsValid :
      (batch_id : ℕ) (ev : Event) (after : ℕ) (reason : Option String) (limit : ℕ)
      → IsValid base (settle batch_id ev after reason limit db).1
  unfolding settle
  settle-IsValid batch_id ev after reason limit =
      elim (Bool-cases (leb limit (or_else ev.ev_retry 0))) [
        | inl dead ↦ rw dead (
            returned-IsValid (event_dead batch_id ev (or_else reason "max retries exceeded")) 1 db
              (event_dead-IsValid batch_id ev (or_else reason "max retries exceeded")))
        | inr again ↦ rw again (
            returned-IsValid (event_retry batch_id ev.ev_id after) 1 db
              (event_retry-IsValid batch_id ev.ev_id after))
      ]

  pub nack-IsValid :
      (batch_id id after : ℕ) (reason : Option String)
      → IsValid base (nack batch_id id after reason db).1
  unfolding nack
  nack-IsValid batch_id id after reason = elim (Option-cases (limit_of db batch_id)) [
    | inl none_there ↦ rw (none_there, nack) v
    | inr (limit, there) ↦
        rw (there, nack)
          (read-IsValid batch_id _ (λ evs. elim (Option-cases (find (λ ev. ev.ev_id == id) evs)) [
            | inl missing ↦ rw missing v
            | inr (ev, found) ↦ rw found (settle-IsValid batch_id ev after reason limit)
          ]))
  ]

module _ {base : Db} (db : Db) (v : IsValid base db) where
  receive_batch-IsValid : (batch_id limit : ℕ) → IsValid base (receive_batch batch_id limit db).1
  unfolding receive_batch
  receive_batch-IsValid batch_id limit =
      read-IsValid db v batch_id _ (λ evs.
        follow-IsValid _ (yield_messages batch_id limit 0 evs) db v (λ rows. ended evs rows))
    where
      ended :
          (evs : List Event) (rows : List (List Value))
          → IsValid base
              ((elim evs as (λ (x : List Event). Exec Db (List (List Value))) [
                | [] ↦ finish_batch batch_id >> pure rows
                | ev ∷ rest ↦ pure rows
              ])
                db).1
      ended [] rows =
          returned-IsValid (finish_batch batch_id) rows db (finish_batch-IsValid db v batch_id)
      ended (ev ∷ rest) rows = v

pub receive-IsValid :
    {base : Db} (db : Db)
    → IsValid base db
    → (queue consumer : String) (limit : ℕ) → IsValid base (receive queue consumer limit db).1
unfolding receive
receive-IsValid {base} db v queue consumer limit = elim (Bool-cases (ltb limit 1)) [
  | inl few ↦ rw few v
  | inr enough ↦ rw enough (
      let w = next_batch-IsValid db v queue consumer in
      follow-IsValid _ (next_batch queue consumer db).0 (next_batch queue consumer db).1 w
        (given (next_batch queue consumer db).1 w))
]
  where
    given :
        (d : Db)
        → IsValid base d
        → (b : Option ℕ)
        → IsValid base
            ((elim b as (λ (x : Option ℕ). Exec Db (List (List Value))) [
              | none ↦ pure []
              | some batch_id ↦ receive_batch batch_id limit
            ])
              d).1
    given d w none = w
    given d w (some batch_id) = receive_batch-IsValid d w batch_id limit

-- The return of retried events.
return_one-IsValid :
    {base : Db} (r : Retry) (db : Db) → IsValid base db → IsValid base (return_one r db).1
unfolding return_one
return_one-IsValid r db v = elim (Option-cases (queue_of db r)) [
  | inl none_there ↦ rw (none_there, return_one) v
  | inr (q, there) ↦
      rw (there, return_one)
        (let w = insert_event_raw-IsValid q.queue_name db v (returned_event r) in
          follow-IsValid _ (insert_event_raw q.queue_name (returned_event r) db).0
            (insert_event_raw q.queue_name (returned_event r) db).1 w
            (λ n. retries-IsValid _ w _ (own_retry-select _ _ w.own_retry)))
]

return_all-IsValid :
    {base : Db} (n : ℕ) (rs : List Retry) (db : Db)
    → IsValid base db
    → IsValid base (return_all n rs db).1
unfolding return_all
return_all-IsValid n [] db v = v
return_all-IsValid n (r ∷ rs) db v =
    let w = return_one-IsValid r db v in
    follow-IsValid _ (return_one r db).0 (return_one r db).1 w
      (λ u. return_all-IsValid (n + 1) rs (return_one r db).1 w)

pub maint_retry_events-IsValid :
    {base : Db} (db : Db) → IsValid base db → IsValid base (maint_retry_events db).1
unfolding maint_retry_events
maint_retry_events-IsValid db v = return_all-IsValid 0 (due db) db v
