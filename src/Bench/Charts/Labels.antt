-- ===== src/Bench/Charts/Labels.antt =====
-- The labels of the charts do not overlap.
use pg_que.Base.{
  ℕ, ◌+◌, ◌≤◌, ◌≡◌, refl, List, [], ◌∷◌, ltb, leb, if◌then◌else◌, Bool-cases, false, leb→le, inl,
  inr, arith,
}
use pg_que.Bench.Charts.{insert, sort, spread_from, spread, place_labels}

pushed : (y0 y gap : ℕ) → y0 + gap ≤ (if ltb y (y0 + gap) then y0 + gap else y)
pushed y0 y gap = ground arith

not_down : (y0 y gap : ℕ) → y ≤ (if ltb y (y0 + gap) then y0 + gap else y)
not_down y0 y gap = ground arith

not_leb : (a b : ℕ) → leb a b ≡ false → b ≤ a
not_leb a b h = ground arith

zero_le : (a : ℕ) → 0 ≤ a
zero_le a = omega arith

refl_le : (y : ℕ) → y ≤ y
refl_le y = omega arith

module _ {A : Type 0} where
  -- Each label is at least `gap` above the one before.
  abbrev pub Apart : ℕ → List (ℕ × A) → Type 0
  Apart gap [] = Unit
  Apart gap (l ∷ []) = Unit
  Apart gap (l ∷ m ∷ ls) = (l.0 + gap ≤ m.0) × Apart gap (m ∷ ls)

  -- The same labels in the same order, none moved down.
  abbrev pub Raised : List (ℕ × A) → List (ℕ × A) → Type 0
  Raised [] [] = Unit
  Raised (l ∷ ls) (m ∷ ms) = (l.0 ≤ m.0) × (l.1 ≡ m.1) × Raised ls ms
  Raised [] (m ∷ ms) = 1 ≤ 0
  Raised (l ∷ ls) [] = 1 ≤ 0

  spread_from-Apart :
      (gap y0 : ℕ) (a : A) (ls : List (ℕ × A)) → Apart gap ((y0, a) ∷ spread_from gap y0 ls)
  unfolding spread_from
  spread_from-Apart gap y0 a [] = tt
  spread_from-Apart gap y0 a ((y, b) ∷ ls) =
      (pushed y0 y gap, spread_from-Apart gap (if ltb y (y0 + gap) then y0 + gap else y) b ls)

  spread_from-Raised : (gap y0 : ℕ) (ls : List (ℕ × A)) → Raised ls (spread_from gap y0 ls)
  unfolding spread_from
  spread_from-Raised gap y0 [] = tt
  spread_from-Raised gap y0 ((y, b) ∷ ls) = (
    not_down y0 y gap,
    refl,
    spread_from-Raised gap (if ltb y (y0 + gap) then y0 + gap else y) ls,
  )

  spread-Apart : (gap : ℕ) (ls : List (ℕ × A)) → Apart gap (spread gap ls)
  unfolding spread
  spread-Apart gap [] = tt
  spread-Apart gap ((y, a) ∷ ls) = spread_from-Apart gap y a ls

  spread-Raised : (gap : ℕ) (ls : List (ℕ × A)) → Raised ls (spread gap ls)
  unfolding spread
  spread-Raised gap [] = tt
  spread-Raised gap ((y, a) ∷ ls) = (refl_le y, refl, spread_from-Raised gap y ls)

  -- The heights rise, from `b` on.
  abbrev pub Rising : ℕ → List (ℕ × A) → Type 0
  Rising b [] = Unit
  Rising b (l ∷ ls) = (b ≤ l.0) × Rising l.0 ls

  insert-Rising :
      (b : ℕ) (l : ℕ × A) (ls : List (ℕ × A)) → b ≤ l.0 → Rising b ls → Rising b (insert l ls)
  unfolding insert
  insert-Rising b l [] h k = (h, tt)
  insert-Rising b l (m ∷ ls) h (k, ks) = elim (Bool-cases (leb l.0 m.0)) [
    | inl before ↦ rw before (h, (leb→le l.0 m.0 before, ks))
    | inr after ↦ rw after (k, insert-Rising m.0 l ls (not_leb l.0 m.0 after) ks)
  ]

  sort-Rising : (ls : List (ℕ × A)) → Rising 0 (sort ls)
  unfolding sort
  sort-Rising [] = tt
  sort-Rising (l ∷ ls) = insert-Rising 0 l (sort ls) (zero_le l.0) (sort-Rising ls)

  -- For all labels and every gap, the labels are placed at least the gap apart, in the order of
  -- their heights, and none is placed below its own height.
  pub place_labels-Apart :
      (gap : ℕ) (ls : List (ℕ × A))
      → Apart gap (place_labels gap ls)
        × Rising 0 (sort ls)
        × Raised (sort ls) (place_labels gap ls)
  unfolding place_labels
  place_labels-Apart gap ls =
      (spread-Apart gap (sort ls), sort-Rising ls, spread-Raised gap (sort ls))
