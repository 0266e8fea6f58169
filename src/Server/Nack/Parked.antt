-- ===== src/Server/Nack/Parked.antt =====
-- A nack of sql/pgque.sql leaves its event in the retry queue or in the dead letters.
use pg_que.Base.{
  ℕ, ◌+◌, ◌≤◌, String, ◌≡◌, ◌⊎◌, refl, ap, ◌∙◌, true, Option, some, List, [], ◌∷◌, ◌==◌, leb,
  length, Bool-cases, inl, inr, if◌then◌else◌, arith,
}
use mathlib.Core.Path.{subst}
use pg_que.Base.Selections.{select}
use pg_que.Exec.{ok}
use pg_que.Server.BatchSql.{Event}
use pg_que.Server.Tables.{Db, Subscription, Retry, exists, holder, tick_of}
use pg_que.Server.Batches.{batch_rows, rows_of}
use pg_que.Server.Nack.{
  or_else, insert_retries, retry_row, is_retry, dead_consumer, is_dead, limit_of, max_retries, nack,
}
use pg_que.Server.Nack.Traced.{
  bury, postpone, park, same_id, Found, matching, find-select, found_id, nack-park,
}

-- The retry queue has a row for an event of a subscription, or the dead letters have.
abbrev pub IsParked : Db → Subscription → ℕ → Type 0
IsParked db s id =
    (exists (is_retry s.sub_id id) db.retry_queue ≡ true)
    ⊎ (exists (is_dead s.sub_queue (dead_consumer db s) id) db.dead_letter ≡ true)

-- The tables with as many ids of dead letters drawn.
abbrev pub drawn_up_to : ℕ → Db → Db
drawn_up_to n db = record db { dl_id_seq = n }

-- The number of an event is its own within the batch.
abbrev pub HasOwnId : Db → ℕ → ℕ → Type 0
HasOwnId db batch_id id =
    (evs : List Event) → batch_rows db batch_id ≡ some evs → length (select (same_id id) evs) ≤ 1

same : (a : ℕ) → (a == a) ≡ true
same a = ground arith

only_one : (ev : Event) (rest : List Event) → length (ev ∷ rest) ≤ 1 → rest ≡ []
only_one ev [] h = refl
only_one ev (x ∷ rest) h = absurd (omega arith)

module _ (db : Db) (s : Subscription) (ev : Event) where
  pub postpone_one :
      (after : ℕ)
      → postpone db s (ev ∷ []) after ≡ (
          if exists (is_retry s.sub_id ev.ev_id) db.retry_queue
          then db.retry_queue
          else retry_row (db.now + after) s ev ∷ db.retry_queue)
  unfolding insert_retries
  postpone_one after = elim (Bool-cases (exists (is_retry s.sub_id ev.ev_id) db.retry_queue)) [
    | inl there ↦ rw there refl
    | inr new ↦ rw new refl
  ]

  exists-postpone :
      (after : ℕ) → exists (is_retry s.sub_id ev.ev_id) (postpone db s (ev ∷ []) after) ≡ true
  exists-postpone after =
      rw (postpone_one after)
        (elim (Bool-cases (exists (is_retry s.sub_id ev.ev_id) db.retry_queue)) [
          | inl there ↦ rw there there
          | inr new ↦ rw new (rw (same s.sub_id, same ev.ev_id) refl)
        ])

  exists-bury :
      (reason : String)
      → exists (is_dead s.sub_queue (dead_consumer db s) ev.ev_id) (bury db s ev reason) ≡ true
  exists-bury reason =
      elim (Bool-cases
        (exists (is_dead s.sub_queue (dead_consumer db s) ev.ev_id) db.dead_letter)) [
          | inl there ↦ rw there there
          | inr new ↦ rw new (rw (same s.sub_queue, same (dead_consumer db s), same ev.ev_id) refl)
        ]

  -- The one nack of an event that has its number to itself.
  park_one-IsParked :
      (after : ℕ) (reason : Option String) (limit : ℕ)
      → IsParked (park db s (ev ∷ []) ev after reason limit) s ev.ev_id
  unfolding dead_consumer
  park_one-IsParked after reason limit = elim (Bool-cases (leb limit (or_else ev.ev_retry 0))) [
    | inl spent ↦ inr (rw spent (exists-bury (or_else reason "max retries exceeded")))
    | inr left ↦ inl (rw left (exists-postpone after))
  ]

  already_there :
      (time : ℕ) (rs : List Retry)
      → exists (is_retry s.sub_id ev.ev_id) rs ≡ true
      → or_else (insert_retries time s (ev ∷ []) rs) rs ≡ rs
  unfolding insert_retries
  already_there time rs h = rw h refl

  -- A second nack of it, once it is parked.
  park_again :
      (after : ℕ) (reason : Option String) (limit n after' : ℕ) (reason' : Option String)
      → park
          (drawn_up_to n (park db s (ev ∷ []) ev after reason limit))
          s
          (ev ∷ [])
          ev
          after'
          reason'
          limit
        ≡ drawn_up_to
            (if leb limit (or_else ev.ev_retry 0) then n + 1 else n)
            (park db s (ev ∷ []) ev after reason limit)
  unfolding dead_consumer
  park_again after reason limit n after' reason' =
      let db' = park db s (ev ∷ []) ev after reason limit in
      elim (Bool-cases (leb limit (or_else ev.ev_retry 0))) [
        | inl spent ↦
            let buried : exists (is_dead s.sub_queue (dead_consumer db' s) ev.ev_id)
                  (bury db s ev (or_else reason "max retries exceeded"))
                ≡ true =
              exists-bury (or_else reason "max retries exceeded") in
            rw spent (rw buried refl)
        | inr left ↦ rw left (
            rw
              (already_there (db.now + after') (postpone db s (ev ∷ []) after)
                (exists-postpone after))
              refl)
      ]

module _ (db : Db) (batch_id id : ℕ) (own : HasOwnId db batch_id id) (f : Found db batch_id id)
    (after : ℕ) (reason : Option String) where
  pub matching_one : matching db batch_id id f after reason ≡ f.event ∷ []
  matching_one =
      let (rest, selected) = find-select (same_id id) f.events f.event f.among in
      rw selected (
        ap (λ evs. f.event ∷ evs)
          (only_one f.event rest (subst (λ evs. length evs ≤ 1) selected (own f.events f.rows))))

  pub park-IsParked :
      IsParked
        (park db f.sub (matching db batch_id id f after reason) f.event after reason f.limit)
        f.sub
        id
  park-IsParked = rw matching_one (
      subst (λ n. IsParked (park db f.sub (f.event ∷ []) f.event after reason f.limit) f.sub n)
        (found_id id f.events f.event f.among)
        (park_one-IsParked db f.sub f.event after reason f.limit))

  -- What a nack finds, the next one finds as well.
  still_found :
      (n : ℕ)
      → Found
          (drawn_up_to n
            (park db f.sub (matching db batch_id id f after reason) f.event after reason f.limit))
          batch_id
          id
  unfolding holder limit_of batch_rows rows_of tick_of max_retries
  still_found n = record {
    sub = f.sub;
    limit = f.limit;
    events = f.events;
    event = f.event;
    held = f.held;
    limited = f.limited;
    rows = f.rows;
    among = f.among;
  }

module _ (db : Db) (batch_id id : ℕ) (own : HasOwnId db batch_id id) (f : Found db batch_id id)
    (after : ℕ) (reason : Option String) where
  -- For an event of a batch that has its number to itself, `nack` returns 1 and leaves the event in
  -- the retry queue or in the dead letters; further nacks of it, however many and with whatever
  -- delays and reasons, return 1 too and change nothing but how many ids of dead letters are drawn.
  pub nack-IsParked :
      (db' : Db) × (nack batch_id id after reason db ≡ (ok 1, db'))
      × IsParked db' f.sub id
      × ((n after' : ℕ) (reason' : Option String)
          → (m : ℕ) × (nack batch_id id after' reason' (drawn_up_to n db')
              ≡ (ok 1, drawn_up_to m db')))
  unfolding still_found
  nack-IsParked = (
    park db f.sub (matching db batch_id id f after reason) f.event after reason f.limit,
    nack-park db batch_id id f after reason,
    park-IsParked db batch_id id own f after reason,
    again,
  )
    where
      again :
          (n after' : ℕ) (reason' : Option String)
          → (m : ℕ) × (nack batch_id id after' reason' (
                drawn_up_to n (
                  park db f.sub
                    (matching db batch_id id f after reason)
                    f.event
                    after
                    reason
                    f.limit))
              ≡ (
                ok 1,
                drawn_up_to m (
                    park db f.sub
                      (matching db batch_id id f after reason)
                      f.event
                      after
                      reason
                      f.limit),
              ))
      again n after' reason' = (
        if leb f.limit (or_else f.event.ev_retry 0) then n + 1 else n,
        nack-park _ batch_id id (still_found db batch_id id own f after reason n) after' reason'
            ∙ ap (λ x. (ok 1, x))
                (rw (matching_one db batch_id id own f after reason)
                  (park_again db f.sub f.event after reason f.limit n after' reason')),
      )
