-- ===== src/Server/Batches/Next.antt =====
-- The tick that `next_tick` finds, described without its query.
use pg_que.Base.{
  ℕ, ◌≤◌, ◌<◌, ◌≡◌, refl, sym, Bool, true, false, Option, none, some, List, [], ◌∷◌, All, ◌==◌,
  ◌&&◌, ◌||◌, ltb, leb, if◌then◌else◌, Bool-cases, inl, inr, arith,
}
use mathlib.Core.Path.{subst}
use pg_que.Base.Selections.{select, insert_by, order_by}
use pg_que.Server.Tables.{Db, Tick, exists, first, next_tick}
use pg_que.Server.Steps.Rows.{All-map}

-- The tick `next` of a queue follows the tick `prev`: it is there, it is newer, and no tick of the
-- queue lies between.
pub record IsNextTick (db : Db) (queue prev next : ℕ) : Type 0 where
  pub there : exists (λ t. t.tick_queue == queue && t.tick_id == next) db.ticks ≡ true
  pub newer : prev < next
  pub nearest : All (λ t. t.tick_queue ≡ queue → prev < t.tick_id → next ≤ t.tick_id) db.ticks

module _ {A : Type 0} (p : A → Bool) (key : A → ℕ) where
  -- The first row that a query finds, if any.
  data FirstOf (xs : List A) : Option A → Type 0 where
    nothing : All (λ x. p x ≡ false) xs → FirstOf xs none
    least :
        (cur : A)
        → p cur ≡ true
        → ((q : A → Bool) → q cur ≡ true → exists q xs ≡ true)
        → All (λ x. p x ≡ true → key cur ≤ key x) xs
        → FirstOf xs (some cur)

  abbrev lesser : A → Option A → A
  lesser x none = x
  lesser x (some y) = if leb (key x) (key y) then x else y

  first-insert_by : (x : A) (ys : List A) → first (insert_by key x ys) ≡ some (lesser x (first ys))
  unfolding insert_by
  first-insert_by x [] = refl
  first-insert_by x (y ∷ ys) = elim (Bool-cases (leb (key x) (key y))) [
    | inl before ↦ rw before refl
    | inr after ↦ rw after refl
  ]

  or_true : (a b : Bool) → b ≡ true → (a || b) ≡ true
  or_true a b h = ground arith

  or_left : (a b : Bool) → a ≡ true → (a || b) ≡ true
  or_left a b h = ground arith

  not_both : {a : Bool} → a ≡ false → a ≡ true → ⊥
  not_both h k = cc

  missed : (x : A) (xs : List A) (o : Option A) → p x ≡ false → FirstOf xs o → FirstOf (x ∷ xs) o
  missed x xs _ miss (nothing h) = nothing (miss, h)
  missed x xs _ miss (least cur hit there least_of) =
      least cur hit (λ q h. or_true (q x) (exists q xs) (there q h))
        ((λ k. absurd (not_both miss k)), least_of)

  smaller : (a b : ℕ) → leb a b ≡ true → a ≤ b
  smaller a b h = ground arith

  greater : (a b : ℕ) → leb a b ≡ false → b ≤ a
  greater a b h = ground arith

  met :
      (x : A) (xs : List A) (o : Option A)
      → p x ≡ true
      → FirstOf xs o
      → FirstOf (x ∷ xs) (some (lesser x o))
  met x xs _ hit (nothing none_there) =
      least x hit (λ q h. or_left (q x) (exists q xs) h)
        (
          (λ k. omega arith),
          All-map (λ y. p y ≡ false) (λ y. p y ≡ true → key x ≤ key y) xs
              (λ y miss k. absurd (not_both miss k)) none_there,
        )
  met x xs _ hit (least cur cur_hit there least_of) = elim (Bool-cases (leb (key x) (key cur))) [
    | inl before ↦ rw before (
        least x hit (λ q h. or_left (q x) (exists q xs) h)
          (
            (λ k. omega arith),
            All-map _ (λ y. p y ≡ true → key x ≤ key y) xs
                (λ y h k. omega (arith, h k, smaller (key x) (key cur) before)) least_of,
          ))
    | inr after ↦ rw after (
        least cur cur_hit (λ q h. or_true (q x) (exists q xs) (there q h))
          ((λ k. greater (key x) (key cur) after), least_of))
  ]

  first-FirstOf : (xs : List A) → FirstOf xs (first (order_by key (select p xs)))
  unfolding select order_by
  first-FirstOf [] = nothing tt
  first-FirstOf (x ∷ xs) = elim (Bool-cases (p x)) [
    | inl hit ↦ rw hit (
        subst (FirstOf (x ∷ xs)) (sym (first-insert_by x (order_by key (select p xs))))
          (met x xs _ hit (first-FirstOf xs)))
    | inr miss ↦ rw miss (missed x xs _ miss (first-FirstOf xs))
  ]

  -- What is known of the first row.
  found :
      (xs : List A) (o : Option A) (cur : A) → FirstOf xs o → o ≡ some cur → FirstOf xs (some cur)
  found xs o cur f e = subst (FirstOf xs) e f

both : (a b : Bool) → (a && b) ≡ true → (a ≡ true) × (b ≡ true)
both a b h = ground arith

same : (n : ℕ) → (n == n) ≡ true
same n = ground arith

below : (a b : ℕ) → ltb a b ≡ true → a < b
below a b h = ground arith

above : (a b : ℕ) → a < b → ltb a b ≡ true
above a b h = ground arith

abbrev follows : ℕ → ℕ → Tick → Bool
follows queue prev t = ltb prev t.tick_id && t.tick_queue == queue

of_first :
    (db : Db) (queue prev : ℕ) (cur : Tick)
    → FirstOf (follows queue prev) (λ t. t.tick_id) db.ticks (some cur)
    → IsNextTick db queue prev cur.tick_id
of_first db queue prev _ (least cur hit there least_of) =
    let (newer, own) = both (ltb prev cur.tick_id) (cur.tick_queue == queue) hit in
    record {
      there =
          there (λ t. t.tick_queue == queue && t.tick_id == cur.tick_id)
            (rw (own, same cur.tick_id) refl);
      newer = below prev cur.tick_id newer;
      nearest =
          All-map _ (λ t. t.tick_queue ≡ queue → prev < t.tick_id → cur.tick_id ≤ t.tick_id)
            db.ticks (λ t h e k. h (rw (above prev t.tick_id k, e) (same queue))) least_of;
    }

pub next_tick-IsNextTick :
    (db : Db) (queue prev : ℕ) (cur : Tick)
    → next_tick db queue prev ≡ some cur
    → IsNextTick db queue prev cur.tick_id
unfolding next_tick
next_tick-IsNextTick db queue prev cur h = of_first db queue prev cur (
    found (follows queue prev) (λ t. t.tick_id) db.ticks _ cur
      (first-FirstOf (follows queue prev) (λ t. t.tick_id) db.ticks) h)
