-- ===== src/Server/Delivery/Parking.antt =====
-- The nacks of a poll at the server: what they leave, one after the other.
use mathlib.Core.Path.{subst}
use pg_que.Base.{
  ℕ, ◌+◌, ◌≤◌, String, ◌≡◌, sym, ap, ◌∙◌, Bool, true, Option, some, List, [], ◌∷◌, ◌||◌, length,
  leb, Bool-cases, inl, inr, arith,
}
use pg_que.Base.Selections.{select}
use pg_que.Exec.{Result, ok}
use pg_que.Server.BatchSql.{Event}
use pg_que.Server.Tables.{Db, Subscription, Retry, DeadLetter, exists, named, holder, tick_of}
use pg_que.Server.Batches.{batch_rows, rows_of}
use pg_que.Server.Nack.{nack, or_else, is_retry, is_dead, dead_consumer, retry_row}
use pg_que.Server.Nack.Traced.{
  park, postpone, bury, same_id, Found, matching, Nacked, parked, refused, nack-Nacked,
}
use pg_que.Server.Nack.Parked.{IsParked, HasOwnId, park-IsParked, matching_one, postpone_one}

-- A batch is open for a consumer, and its events have their numbers to themselves.
pub record IsOpen (queue consumer : String) (batch_id : ℕ) (sub : Subscription) (evs : List Event)
    (db : Db) : Type 0 where
  pub is : named db queue consumer ≡ some sub
  pub held : holder db batch_id ≡ some sub
  pub rows : batch_rows db batch_id ≡ some evs

-- The numbers of a batch's events differ.
abbrev pub AreOwnIds : List Event → Type 0
AreOwnIds evs = (id : ℕ) → length (select (same_id id) evs) ≤ 1

exists-cons :
    {A : Type 0} (p : A → Bool) (x : A) (xs : List A)
    → exists p xs ≡ true
    → exists p (x ∷ xs) ≡ true
exists-cons p x xs h = rw h (or_true (p x))
  where
    or_true : (b : Bool) → (b || true) ≡ true
    or_true b = ground arith

module _ (db : Db) (s : Subscription) (ev : Event) where
  exists-postpone :
      (p : Retry → Bool) (after : ℕ)
      → exists p db.retry_queue ≡ true
      → exists p (postpone db s (ev ∷ []) after) ≡ true
  exists-postpone p after h =
      rw (postpone_one db s ev after)
        (elim (Bool-cases (exists (is_retry s.sub_id ev.ev_id) db.retry_queue)) [
          | inl there ↦ rw there h
          | inr new ↦ rw new (exists-cons p (retry_row (db.now + after) s ev) db.retry_queue h)
        ])

  exists-bury :
      (p : DeadLetter → Bool) (reason : String)
      → exists p db.dead_letter ≡ true
      → exists p (bury db s ev reason) ≡ true
  exists-bury p reason h =
      elim (Bool-cases
        (exists (is_dead s.sub_queue (dead_consumer db s) ev.ev_id) db.dead_letter)) [
          | inl there ↦ rw there h
          | inr new ↦ rw new (exists-cons p _ db.dead_letter h)
        ]

  park-stays :
      (sub : Subscription) (other after limit : ℕ) (reason : Option String)
      → IsParked db sub other
      → IsParked (park db s (ev ∷ []) ev after reason limit) sub other
  unfolding dead_consumer
  park-stays sub other after limit reason h =
      elim (Bool-cases (leb limit (or_else ev.ev_retry 0))) [
        | inl spent ↦ elim h [
          | inl retried ↦ inl (rw spent retried)
          | inr dead ↦ inr (
              rw spent (
                exists-bury (is_dead sub.sub_queue (dead_consumer db sub) other)
                  (or_else reason "max retries exceeded") dead))
        ]
        | inr left ↦ elim h [
          | inl retried ↦ inl (rw left (exists-postpone (is_retry sub.sub_id other) after retried))
          | inr dead ↦ inr (rw left dead)
        ]
      ]

module _ (queue consumer : String) (batch_id : ℕ) (sub : Subscription) (evs : List Event)
    (own : AreOwnIds evs) where
  same_rows : {o : Option (List Event)} (es : List Event) → o ≡ some es → o ≡ some evs → es ≡ evs
  same_rows es h k = let e : some es ≡ some evs = sym h ∙ k in cc

  same_sub : {o : Option Subscription} (s : Subscription) → o ≡ some s → o ≡ some sub → s ≡ sub
  same_sub s h k = let e : some s ≡ some sub = sym h ∙ k in cc

  IsOpen-HasOwnId :
      (db : Db) (id : ℕ) → IsOpen queue consumer batch_id sub evs db → HasOwnId db batch_id id
  IsOpen-HasOwnId db id o es h =
      subst (λ es. length (select (same_id id) es) ≤ 1) (sym (same_rows es h o.rows)) (own id)

  -- What a nack that returns leaves.
  pub record Leaves (db : Db) (id : ℕ) (db' : Db) : Type 0 where
    pub still : IsOpen queue consumer batch_id sub evs db'
    pub there : IsParked db' sub id
    pub stay : (other : ℕ) → IsParked db sub other → IsParked db' sub other

  park-Leaves :
      (db : Db) (id after : ℕ) (reason : Option String)
      (o : IsOpen queue consumer batch_id sub evs db) (f : Found db batch_id id)
      → Leaves db id
          (park db f.sub (matching db batch_id id f after reason) f.event after reason f.limit)
  unfolding named holder batch_rows rows_of tick_of dead_consumer
  park-Leaves db id after reason o f = record {
    still = record { is = o.is; held = o.held; rows = o.rows };
    there =
        subst
          (λ x.
            IsParked
              (park db f.sub (matching db batch_id id f after reason) f.event after reason f.limit)
              x id)
          (same_sub f.sub f.held o.held)
          (park-IsParked db batch_id id (IsOpen-HasOwnId db id o) f after reason);
    stay = λ other h.
        rw (matching_one db batch_id id (IsOpen-HasOwnId db id o) f after reason)
          (park-stays db f.sub f.event sub other after f.limit reason h);
  }

  pub nack-Leaves :
      (db : Db) (id after n : ℕ) (reason : Option String) (db' : Db)
      → IsOpen queue consumer batch_id sub evs db
      → nack batch_id id after reason db ≡ (ok n, db')
      → Leaves db id db'
  nack-Leaves db id after n reason db' o done =
      by_outcome (nack-Nacked db batch_id id after reason) done
    where
      by_outcome :
          {r : Result ℕ × Db}
          → Nacked db batch_id id after reason r
          → r ≡ (ok n, db')
          → Leaves db id db'
      by_outcome (refused text) e = absurd (cc)
      by_outcome (parked f) e =
          subst (Leaves db id) (ap (λ (x : Result ℕ × Db). x.1) e)
            (park-Leaves db id after reason o f)
