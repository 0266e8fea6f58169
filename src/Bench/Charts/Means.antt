-- ===== src/Bench/Charts/Means.antt =====
-- The rolling mean of benchmark/charts/r8_analyze.py, value by value.
use pg_que.Base.{
  ℕ, zero, suc, ◌+◌, ◌-◌, ◌<◌, ◌≡◌, refl, sym, ap, ◌∙◌, min, max, List, [], ◌∷◌, map, take, length,
  sum, count_from, length-map, Bool, ◌&&◌, get_elem?, Bool-cases, inl, inr, leb, ltb, some, arith,
}
use pg_que.Base.Selections.{select}
use pg_que.Base.Slices.{length-count_from}
use pg_que.Bench.Charts.Series.{window-IsMean, get_elem?-map-count_from, zero_front}
use pg_que.Bench.Charts.{drop, window_start, window_end, window, smooth}

-- The values of a series with their places.
abbrev pub indexed : ℕ → List ℕ → List (ℕ × ℕ)
indexed k [] = []
indexed k (y ∷ ys) = (k, y) ∷ indexed (suc k) ys

-- The values whose places are at most `w` from `i`.
abbrev pub near : ℕ → ℕ → List ℕ → List ℕ
near w i ys = map (λ p. p.1) (select (λ p. leb p.0 (i + w) && leb i (p.0 + w)) (indexed 0 ys))

abbrev inside : ℕ → ℕ → ℕ × ℕ → Bool
inside a b p = leb a p.0 && ltb p.0 b

take-nil : (n : ℕ) → take {A = ℕ} n [] ≡ []
take-nil zero = refl
take-nil (suc n) = refl

drop-nil : (n : ℕ) → drop {A = ℕ} n [] ≡ []
drop-nil zero = refl
drop-nil (suc n) = refl

inside-slice :
    (a b n k : ℕ) (ys : List ℕ)
    → n ≡ k + length ys
    → map (λ p. p.1) (select (inside a b) (indexed k ys))
      ≡ take (min n b - max a k) (drop (a - k) ys)
unfolding select
inside-slice a b n k [] e = rw (drop-nil (a - k)) (sym (take-nil (min n b - max a k)))
inside-slice a b n k (y ∷ ys) e =
    let rest = inside-slice a b n (suc k) ys (omega (arith, e)) in
    elim (Bool-cases (leb a k)) [
      | inr before ↦
          let skipped : a - k ≡ suc (a - suc k) = ground (arith, before) in
          let same : max a k ≡ max a (suc k) = ground (arith, before) in
          rw (before, skipped, same) rest
      | inl from ↦
          let start : a - k ≡ 0 = ground (arith, from) in
          let start_too : a - suc k ≡ 0 = ground (arith, from) in
          let here : max a k ≡ k = ground (arith, from) in
          let next : max a (suc k) ≡ suc k = ground (arith, from) in
          elim (Bool-cases (ltb k b)) [
            | inl within ↦
                let more : min n b - k ≡ suc (min n b - suc k) = ground (arith, within, e) in
                rw (from, within, start, here, more)
                  (ap (λ xs. y ∷ xs) (rw (next, start_too) at rest))
            | inr past ↦
                let none_left : min n b - k ≡ 0 = ground (arith, past) in
                let none_later : min n b - suc k ≡ 0 = ground (arith, past) in
                rw (from, past, start, here, none_left) (rw (next, none_later) at rest)
          ]
    ]

no_less : (a : ℕ) → a - 0 ≡ a
no_less a = omega arith

no_more : (a : ℕ) → max a 0 ≡ a
no_more a = omega arith

near-window : (ys : List ℕ) (w i : ℕ) → i < length ys → near w i ys ≡ window w ys i
unfolding window_start window_end
near-window ys w i h =
    ap (λ (p : ℕ × ℕ → Bool). map (λ x. x.1) (select p (indexed 0 ys))) (λ k p. same p.0 k)
    ∙ inside-slice (i - w) (i + w + 1) (length ys) 0 ys (omega arith)
    ∙ ap (λ a. take (min (length ys) (i + w + 1) - max (i - w) 0) (drop a ys)) (no_less (i - w))
    ∙ ap (λ a. take (min (length ys) (i + w + 1) - a) (drop (i - w) ys)) (no_more (i - w))
  where
    same : (j : ℕ) → (leb j (i + w) && leb i (j + w)) ≡ (leb (i - w) j && ltb j (i + w + 1))
    same j = ground arith

-- For every series of natural numbers, every window and every index of the series, `smooth` has as
-- many values as the series, and the one at the index is the mean of the values of the series whose
-- places are at most the window from the index, of which there is at least one.
pub smooth-near :
    (ys : List ℕ) (w i : ℕ)
    → i < length ys
    → (length (smooth ys w) ≡ length ys)
      × (get_elem? (smooth ys w) i ≡ some (sum (near w i ys), length (near w i ys)))
      × (0 < length (near w i ys))
unfolding smooth
smooth-near ys w i h =
    let e = near-window ys w i h in
    let (some_there, count) = window-IsMean ys w i h in
    (
      length-map (count_from 0 (length ys)) _ ∙ length-count_from 0 (length ys),
      get_elem?-map-count_from
            (λ k. (sum (window w ys k), window_end w k (length ys) - window_start w k)) 0
            (length ys) i h
          ∙ ap (λ k. some (sum (window w ys k), window_end w k (length ys) - window_start w k))
              (zero_front i)
          ∙ ap (λ n. some (sum (window w ys i), n)) (sym count)
          ∙ ap (λ xs. some (sum xs, length xs)) (sym e),
      omega (arith, some_there, count, ap length e),
    )
