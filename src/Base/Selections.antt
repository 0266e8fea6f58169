-- ===== src/Base/Selections.antt =====
-- The rows that a condition selects, as SQL does, and what splits a selection.
use mathlib.Core.List.Permᴰ
use mathlib.Core.List.{Permᴰ}
use pg_que.Base.{
  ℕ, ◌≡◌, refl, Bool, true, false, ◌&&◌, ◌||◌, List, [], ◌∷◌, ◌++◌, leb, if◌then◌else◌, Bool-cases,
  inl, inr, ◌≤◌, leb→le, arith,
}

not_leb : (a b : ℕ) → leb a b ≡ false → b ≤ a
not_leb a b h = ground arith

zero_le : (a : ℕ) → 0 ≤ a
zero_le a = omega arith

module _ {ℓ} {A : Type ℓ} where
  -- `where p`
  unfoldable pub select : (A → Bool) → List A → List A
  select p [] = []
  select p (x ∷ xs) = let rest = select p xs in if p x then x ∷ rest else rest

  -- Of two conditions that never hold together, one holds exactly where `r` does.
  abbrev pub Splits : (A → Bool) → (A → Bool) → (A → Bool) → A → Type 0
  Splits p q r x = ((p x || q x) ≡ r x) × ((p x && q x) ≡ false)

  split_one :
      (x : A) (ps qs rs : List A) (a b c : Bool)
      → (a || b) ≡ c
      → (a && b) ≡ false
      → Permᴰ (ps ++ qs) rs
      → Permᴰ ((if a then x ∷ ps else ps) ++ (if b then x ∷ qs else qs)) (if c then x ∷ rs else rs)
  split_one x ps qs rs true true c e f h = cc
  split_one x ps qs rs true false true e f h = Permᴰ.cons refl h
  split_one x ps qs rs true false false e f h = cc
  split_one x ps qs rs false true true e f h =
      Permᴰ.trans (Permᴰ.middle x ps qs) (Permᴰ.cons refl h)
  split_one x ps qs rs false true false e f h = cc
  split_one x ps qs rs false false true e f h = cc
  split_one x ps qs rs false false false e f h = h

  pub select-Permᴰ :
      (p q r : A → Bool) (xs : List A)
      → ((x : A) → Splits p q r x)
      → Permᴰ (select p xs ++ select q xs) (select r xs)
  unfolding select
  select-Permᴰ p q r [] h = Permᴰ.nil
  select-Permᴰ p q r (x ∷ xs) h =
      split_one x (select p xs) (select q xs) (select r xs) (p x) (q x) (r x) (h x).0 (h x).1
        (select-Permᴰ p q r xs h)

  -- `order by key`, which keeps the order of equal keys here.
  unfoldable pub insert_by : (A → ℕ) → A → List A → List A
  insert_by key x [] = x ∷ []
  insert_by key x (y ∷ ys) =
      let rest = insert_by key x ys in if leb (key x) (key y) then x ∷ y ∷ ys else y ∷ rest

  unfoldable pub order_by : (A → ℕ) → List A → List A
  order_by key [] = []
  order_by key (x ∷ xs) = insert_by key x (order_by key xs)

  insert_by-Permᴰ : (key : A → ℕ) (x : A) (ys : List A) → Permᴰ (insert_by key x ys) (x ∷ ys)
  unfolding insert_by
  insert_by-Permᴰ key x [] = Permᴰ.refl (x ∷ [])
  insert_by-Permᴰ key x (y ∷ ys) = elim (Bool-cases (leb (key x) (key y))) [
    | inl before ↦ rw before (Permᴰ.refl (x ∷ y ∷ ys))
    | inr after ↦
        rw after (Permᴰ.trans (Permᴰ.cons refl (insert_by-Permᴰ key x ys)) (Permᴰ.swap refl refl))
  ]

  pub order_by-Permᴰ : (key : A → ℕ) (xs : List A) → Permᴰ (order_by key xs) xs
  unfolding order_by
  order_by-Permᴰ key [] = Permᴰ.nil
  order_by-Permᴰ key (x ∷ xs) =
      Permᴰ.trans (insert_by-Permᴰ key x (order_by key xs))
        (Permᴰ.cons refl (order_by-Permᴰ key xs))

  -- The keys rise, from `b` on.
  abbrev pub Ordered : (A → ℕ) → ℕ → List A → Type 0
  Ordered key b [] = Unit
  Ordered key b (x ∷ xs) = (b ≤ key x) × Ordered key (key x) xs

  insert_by-Ordered :
      (key : A → ℕ) (b : ℕ) (x : A) (ys : List A)
      → b ≤ key x
      → Ordered key b ys
      → Ordered key b (insert_by key x ys)
  unfolding insert_by
  insert_by-Ordered key b x [] h k = (h, tt)
  insert_by-Ordered key b x (y ∷ ys) h (k, ks) = elim (Bool-cases (leb (key x) (key y))) [
    | inl before ↦ rw before (h, (leb→le (key x) (key y) before, ks))
    | inr after ↦
        rw after (k, insert_by-Ordered key (key y) x ys (not_leb (key x) (key y) after) ks)
  ]

  pub order_by-Ordered : (key : A → ℕ) (xs : List A) → Ordered key 0 (order_by key xs)
  unfolding order_by
  order_by-Ordered key [] = tt
  order_by-Ordered key (x ∷ xs) =
      insert_by-Ordered key 0 x (order_by key xs) (zero_le (key x)) (order_by-Ordered key xs)
