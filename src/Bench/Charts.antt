-- ===== src/Bench/Charts.antt =====
-- The computations behind the charts: completion_latency.py and backlog_race.py of
-- benchmark/subconsumer-scaling, and the rolling mean of benchmark/charts/r8_analyze.py. Drawing is
-- not modelled; a time is a number of some unit, the same for the points and for `now`.
pub mod Labels
pub mod Series
pub mod Means
use pg_que.Base.{
  ℕ, zero, suc, ◌+◌, ◌-◌, min, Option, none, some, List, [], ◌∷◌, ◌++◌, map, ltb, leb,
  if◌then◌else◌, take, length, sum, count_from,
}

-- `for _ in range(ev)` of `load_completion_curve`: a point for each message.
unfoldable pub points : ℕ → ℕ → ℕ → List (ℕ × ℕ)
points cumulative zero sec = []
points cumulative (suc ev) sec = (cumulative + 1, sec) ∷ points (cumulative + 1) ev sec

unfoldable pub curve_from : ℕ → List (ℕ × ℕ) → List (ℕ × ℕ)
curve_from cumulative [] = []
curve_from cumulative ((sec, ev) ∷ rows) =
    points cumulative ev sec ++ curve_from (cumulative + ev) rows

-- `load_completion_curve`, from the rows of events_consumed_per_sec.csv; `xs` and `ys` in one list.
unfoldable pub load_completion_curve : List (ℕ × ℕ) → List (ℕ × ℕ)
load_completion_curve rows = curve_from 0 rows

-- The loop of `clip_series`, which stops at the first point after `now`.
unfoldable pub clip_loop : ℕ → List (ℕ × ℕ) → List (ℕ × ℕ)
clip_loop now [] = []
clip_loop now ((x, y) ∷ pts) = if leb x now then (x, y) ∷ clip_loop now pts else []

-- What `clip_series` adds after its loop.
unfoldable pub up_to_now : ℕ → List (ℕ × ℕ) → List (ℕ × ℕ)
up_to_now now [] = []
up_to_now now ((x, y) ∷ []) = if ltb x now then (x, y) ∷ (now, y) ∷ [] else (x, y) ∷ []
up_to_now now (p ∷ q ∷ pts) = p ∷ up_to_now now (q ∷ pts)

unfoldable pub clip_series : List (ℕ × ℕ) → ℕ → List (ℕ × ℕ)
clip_series pts now = up_to_now now (clip_loop now pts)

-- `xs[-1]`, which raises for an empty list.
abbrev pub last {ℓ} : {A : Type ℓ} → List A → Option A
last [] = none
last (x ∷ []) = some x
last (x ∷ y ∷ xs) = last (y ∷ xs)

-- The place of a run's label in `label_lines`: `none` where the code raises `IndexError`.
unfoldable pub end_point : Option ℕ → List (ℕ × ℕ) → Option (ℕ × ℕ)
end_point none pts = last pts
end_point (some now) [] = none
end_point (some now) ((x, y) ∷ pts) = elim (last (clip_series ((x, y) ∷ pts) now)) [
  | none ↦ some (0, y)
  | some p ↦ some p
]

module _ {A : Type 0} where
  -- `labels.sort(key=...)`, which keeps the order of equal keys.
  unfoldable pub insert : ℕ × A → List (ℕ × A) → List (ℕ × A)
  insert l [] = l ∷ []
  insert l (m ∷ ls) = if leb l.0 m.0 then l ∷ m ∷ ls else m ∷ insert l ls

  unfoldable pub sort : List (ℕ × A) → List (ℕ × A)
  sort [] = []
  sort (l ∷ ls) = insert l (sort ls)

  -- The loop that pushes labels apart, after a label at `y0`.
  unfoldable pub spread_from : ℕ → ℕ → List (ℕ × A) → List (ℕ × A)
  spread_from min_gap y0 [] = []
  spread_from min_gap y0 ((y, a) ∷ ls) =
      let y' = if ltb y (y0 + min_gap) then y0 + min_gap else y in
      (y', a) ∷ spread_from min_gap y' ls

  unfoldable pub spread : ℕ → List (ℕ × A) → List (ℕ × A)
  spread min_gap [] = []
  spread min_gap ((y, a) ∷ ls) = (y, a) ∷ spread_from min_gap y ls

  -- The heights of the labels of `label_lines`, whose gap is 6.
  unfoldable pub place_labels : ℕ → List (ℕ × A) → List (ℕ × A)
  place_labels min_gap labels = spread min_gap (sort labels)

abbrev pub drop {ℓ} : {A : Type ℓ} → ℕ → List A → List A
drop zero xs = xs
drop (suc n) [] = []
drop (suc n) (x ∷ xs) = drop n xs

-- The bounds `a` and `b` of `smooth` at an index.
unfoldable pub window_start : ℕ → ℕ → ℕ
window_start w i = i - w

unfoldable pub window_end : ℕ → ℕ → ℕ → ℕ
window_end w i n = min n (i + w + 1)

-- `ys[a:b]`
abbrev pub window : ℕ → List ℕ → ℕ → List ℕ
window w ys i = take (window_end w i (length ys) - window_start w i) (drop (window_start w i) ys)

-- `smooth`: the two sides of each quotient.
unfoldable pub smooth : List ℕ → ℕ → List (ℕ × ℕ)
smooth ys w =
    map (λ i. (sum (window w ys i), window_end w i (length ys) - window_start w i))
      (count_from 0 (length ys))
