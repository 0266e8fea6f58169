-- ===== src/Server/Nack/Limits.antt =====
-- How often an event of a queue is retried.
use pg_que.Base.{
  true, refl, ◌⊎◌, equal, ◌==◌, ℕ, ◌+◌, ◌≤◌, String, ◌≡◌, sym, ap, ◌∙◌, false, Option, some, List,
  [], ◌∷◌, leb, All, Bool-cases, inl, inr, arith,
}
use pg_que.Exec.{Result}
use mathlib.Core.Path.{subst}
use pg_que.Base.Selections.{select}
use pg_que.Server.BatchSql.{Event}
use pg_que.Server.Tables.{Db, Retry, Subscription, exists}
use pg_que.Server.Nack.{retry_row, insert_retries, or_else, is_retry, limit_of, max_retries, nack}
use pg_que.Server.Nack.Traced.{
  postpone, same_id, matching, find-select, Found, Nacked, parked, refused, nack-Nacked,
}

-- The rows of a queue have been retried at most `limit` times.
abbrev pub IsWithin : ℕ → ℕ → List Retry → Type 0
IsWithin queue limit rs = All (λ r. r.ev_queue ≡ queue → r.ev_retry ≤ limit) rs

some-injective : (a b : ℕ) → some a ≡ some b → a ≡ b
some-injective a b e = cc

below : (limit n : ℕ) → leb limit n ≡ false → n + 1 ≤ limit
below limit n h = ground arith

select-ids : (id : ℕ) (evs : List Event) → All (λ x. x.ev_id ≡ id) (select (same_id id) evs)
unfolding select
select-ids id [] = tt
select-ids id (x ∷ evs) = elim (Bool-cases (same_id id x)) [
  | inl hit ↦ rw hit (equal x.ev_id id hit, select-ids id evs)
  | inr miss ↦ rw miss (select-ids id evs)
]

same : (n : ℕ) → (n == n) ≡ true
same n = ground arith

-- Of several events with one number none is inserted, since they would share a key.
postponed :
    (db : Db) (s : Subscription) (ev : Event) (id : ℕ) (rest : List Event) (after : ℕ)
    → All (λ x. x.ev_id ≡ id) (ev ∷ rest)
    → (postpone db s (ev ∷ rest) after ≡ db.retry_queue)
      ⊎ (postpone db s (ev ∷ rest) after ≡ retry_row (db.now + after) s ev ∷ db.retry_queue)
unfolding insert_retries
postponed db s ev id [] after h =
    elim (Bool-cases (exists (is_retry s.sub_id ev.ev_id) db.retry_queue)) [
      | inl there ↦ inl (rw there refl)
      | inr new ↦ inr (rw new refl)
    ]
postponed db s ev id (x ∷ rest) after (e, (k, ks)) =
    elim (Bool-cases (exists (is_retry s.sub_id ev.ev_id) db.retry_queue)) [
      | inl there ↦ inl (rw there refl)
      | inr new ↦ inl (rw new (rw (k, e, same s.sub_id, same id) refl))
    ]

module _ (db : Db) (queue limit : ℕ) (has_limit : max_retries db queue ≡ some limit)
    (batch_id id : ℕ) (f : Found db batch_id id) where
  same_limit : f.sub.sub_queue ≡ queue → f.limit ≡ limit
  unfolding limit_of
  same_limit e =
      some-injective f.limit limit
        (sym f.limited ∙ rw (limit_of, f.held) (ap (max_retries db) e ∙ has_limit))

  postpone-IsWithin :
      (after : ℕ) (reason : Option String)
      → leb f.limit (or_else f.event.ev_retry 0) ≡ false
      → IsWithin queue limit db.retry_queue
      → IsWithin queue limit (postpone db f.sub (matching db batch_id id f after reason) after)
  postpone-IsWithin after reason left within =
      let (rest, selected) = find-select (same_id id) f.events f.event f.among in
      let ids : All (λ x. x.ev_id ≡ id) (f.event ∷ rest) =
        subst (All (λ x. x.ev_id ≡ id)) selected (select-ids id f.events) in
      rw selected (elim (postponed db f.sub f.event id rest after ids) [
        | inl same ↦ rw same within
        | inr new ↦ rw new (
          (λ e. omega (arith, same_limit e, below f.limit (or_else f.event.ev_retry 0) left)),
          within,
        )
      ])

module _ (db : Db) (queue limit : ℕ) (has_limit : max_retries db queue ≡ some limit)
    (batch_id id after : ℕ) (reason : Option String)
    (within : IsWithin queue limit db.retry_queue) where
  -- No nack puts an event into the retry queue more often than its queue allows: the rows of a queue
  -- stay within its limit.
  pub nack-IsWithin : IsWithin queue limit (nack batch_id id after reason db).1.retry_queue
  nack-IsWithin = by_outcome (nack-Nacked db batch_id id after reason)
    where
      by_outcome :
          {r : Result ℕ × Db}
          → Nacked db batch_id id after reason r
          → IsWithin queue limit r.1.retry_queue
      by_outcome (refused text) = within
      by_outcome (parked f) = elim (Bool-cases (leb f.limit (or_else f.event.ev_retry 0))) [
        | inl spent ↦ rw spent within
        | inr left ↦
            rw left
              (postpone-IsWithin db queue limit has_limit batch_id id f after reason left within)
      ]
