-- ===== src/Bench/Charts/Series.antt =====
-- The series that the charts draw.
use pg_que.Base.{
  ℕ, zero, suc, ◌+◌, ◌-◌, ◌≤◌, ◌<◌, ◌≡◌, refl, ap, ◌∙◌, min, List, [], ◌∷◌, ◌++◌, map, take, length,
  sum, All, count_from, true, false, get_elem?, Bool-cases, inl, inr, leb, ltb, some, leb→le, arith,
}
use pg_que.Bench.Events.{counts}
use pg_que.Bench.Charts.{
  points, curve_from, load_completion_curve, clip_loop, up_to_now, clip_series, last, drop, window,
  window_start, window_end,
}

one_on : (c : ℕ) → c + 1 ≡ suc c
one_on c = omega arith

nothing_on : (c : ℕ) → suc (c + 0) ≡ suc c
nothing_on c = omega arith

front : (n : ℕ) → n ≡ 0 + n
front n = omega arith

over : (c ev : ℕ) → suc (c + suc ev) ≡ suc (c + 1 + ev)
over c ev = omega arith

suc_front : (m n : ℕ) → suc m + n ≡ suc (m + n)
suc_front m n = omega arith

-- The points of one row, and what comes after them.
points_then :
    (c ev sec n : ℕ) (pts : List (ℕ × ℕ))
    → map (λ p. p.0) pts ≡ count_from (suc (c + ev)) n
    → map (λ p. p.0) (points c ev sec ++ pts) ≡ count_from (suc c) (ev + n)
unfolding points
points_then c zero sec n pts h =
    h ∙ (ap (λ j. count_from j n) (nothing_on c) ∙ ap (count_from (suc c)) (front n))
points_then c (suc ev) sec n pts h = rw (suc_front ev n) (
    ap (λ zs. (c + 1) ∷ zs)
      (points_then (c + 1) ev sec n pts (h ∙ ap (λ j. count_from j n) (over c ev)))
    ∙ ap (λ j. j ∷ count_from (suc j) (ev + n)) (one_on c))

curve_from-xs :
    (c : ℕ) (rows : List (ℕ × ℕ))
    → map (λ p. p.0) (curve_from c rows) ≡ count_from (suc c) (sum (counts rows))
unfolding curve_from
curve_from-xs c [] = refl
curve_from-xs c ((sec, ev) ∷ rows) =
    points_then c ev sec (sum (counts rows)) (curve_from (c + ev) rows)
      (curve_from-xs (c + ev) rows)

-- The completion curve of a table has one point for each consumed message, numbered from 1 in order.
pub load_completion_curve_xs :
    (rows : List (ℕ × ℕ))
    → map (λ p. p.0) (load_completion_curve rows) ≡ count_from 1 (sum (counts rows))
unfolding load_completion_curve
load_completion_curve_xs rows = curve_from-xs 0 rows

clip_loop-All : (now : ℕ) (pts : List (ℕ × ℕ)) → All (λ (p : ℕ × ℕ). p.0 ≤ now) (clip_loop now pts)
unfolding clip_loop
clip_loop-All now [] = tt
clip_loop-All now ((x, y) ∷ pts) = elim (Bool-cases (leb x now)) [
  | inl past ↦ rw past (leb→le x now past, clip_loop-All now pts)
  | inr future ↦ rw future tt
]

last-cons : (p a : ℕ × ℕ) (zs : List (ℕ × ℕ)) → last zs ≡ some a → last (p ∷ zs) ≡ some a
last-cons p a [] h = cc
last-cons p a (z ∷ zs) h = h

at_now : (x now : ℕ) → x ≤ now → ltb x now ≡ false → x ≡ now
at_now x now h k = ground arith

up_to_now_ends :
    (now : ℕ) (p : ℕ × ℕ) (pts : List (ℕ × ℕ))
    → All (λ (q : ℕ × ℕ). q.0 ≤ now) (p ∷ pts)
    → (y : ℕ) × (last (up_to_now now (p ∷ pts)) ≡ some (now, y))
unfolding up_to_now
up_to_now_ends now (x, y) [] (h, hs) = elim (Bool-cases (ltb x now)) [
  | inl earlier ↦ (y, rw earlier refl)
  | inr there ↦ (y, rw there (ap (λ j. some (j, y)) (at_now x now h there)))
]
up_to_now_ends now (x, y) (q ∷ pts) (h, hs) =
    let (y', e) = up_to_now_ends now q pts hs in
    (y', last-cons (x, y) (now, y') (up_to_now now (q ∷ pts)) e)

-- If the first point of a series is not after `now`, the last point of its clip is at `now`.
pub clip_series_ends :
    (now x y : ℕ) (pts : List (ℕ × ℕ))
    → leb x now ≡ true
    → (y' : ℕ) × (last (clip_series ((x, y) ∷ pts) now) ≡ some (now, y'))
unfolding clip_series clip_loop
clip_series_ends now x y pts h =
    rw h (up_to_now_ends now (x, y) (clip_loop now pts) (leb→le x now h, clip_loop-All now pts))

length-drop : (k : ℕ) (xs : List ℕ) → length (drop k xs) ≡ length xs - k
length-drop zero xs = omega arith
length-drop (suc k) [] = omega arith
length-drop (suc k) (x ∷ xs) = omega (arith, length-drop k xs)

length-take : (k : ℕ) (xs : List ℕ) → length (take k xs) ≡ min k (length xs)
length-take zero xs = omega arith
length-take (suc k) [] = omega arith
length-take (suc k) (x ∷ xs) = omega (arith, length-take k xs)

-- A window that is as long as the divisor, which is not 0.
abbrev pub IsMean : List ℕ → ℕ → ℕ → Type 0
IsMean ys w i =
    (0 < window_end w i (length ys) - window_start w i)
    × (length (window w ys i) ≡ window_end w i (length ys) - window_start w i)

pub window-IsMean : (ys : List ℕ) (w i : ℕ) → i < length ys → IsMean ys w i
unfolding window_end window_start
window-IsMean ys w i h = (
  omega arith,
  omega (
    arith,
    length-take (min (length ys) (i + w + 1) - (i - w)) (drop (i - w) ys),
    length-drop (i - w) ys,
  ),
)

zero_on : (j : ℕ) → j ≡ j + 0
zero_on j = omega arith

suc_on : (j i : ℕ) → suc j + i ≡ j + suc i
suc_on j i = omega arith

pub get_elem?-map-count_from :
    {A : Type 0} (f : ℕ → A) (j n i : ℕ)
    → i < n
    → get_elem? (map f (count_from j n)) i ≡ some (f (j + i))
get_elem?-map-count_from f j zero i h = absurd (omega arith)
get_elem?-map-count_from f j (suc n) zero h = ap (λ k. some (f k)) (zero_on j)
get_elem?-map-count_from f j (suc n) (suc i) h =
    get_elem?-map-count_from f (suc j) n i (omega arith) ∙ ap (λ k. some (f k)) (suc_on j i)

pub zero_front : (i : ℕ) → 0 + i ≡ i
zero_front i = omega arith
