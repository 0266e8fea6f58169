-- ===== src/Bench/Events/Totals.antt =====
-- What the CSV file of parse_events_consumed.py says of the log.
use native.Mathlib.Nat.{eq_of_mul-eq-mul_right, le-div_iff_mul-le, suc-mul}
use pg_que.Base.{
  count_from, range_by, equal, not_zero, length, ltb, leb, ◌&&◌, ℕ, zero, suc, ◌+◌, ◌-◌, ◌*◌, ◌/◌,
  ◌≤◌, ◌<◌, ◌≡◌, refl, sym, ap, List, [], ◌∷◌, map, max, ◌==◌, if◌then◌else◌, sum, All, arith,
  Bool-cases, inl, inr,
}
use pg_que.Bench.Events.{
  add_to, get, bucket_start, bucket_onto, bucket, max_sec, csv_rows, counts, Report, no_data,
  zero_division, written, summary, start_of, find_t0_from_producer, report_of, report,
  parse_notice_log,
}

-- The events of the log whose second falls into the bucket that starts at `k`.
unfoldable pub delivered : ℕ → ℕ → ℕ → List (ℕ × ℕ) → ℕ
delivered k t0 w [] = 0
delivered k t0 w ((ts, n) ∷ events) =
    (if bucket_start t0 w ts == k then n else 0) + delivered k t0 w events

get-add_to :
    (k j n : ℕ) (h : List (ℕ × ℕ)) → get k (add_to j n h) ≡ (if j == k then n else 0) + get k h
unfolding get add_to
get-add_to k j n [] = ground arith
get-add_to k j n ((i, m) ∷ h) = ground (arith, get-add_to k j n h)

get-bucket_onto :
    (k t0 w : ℕ) (es h : List (ℕ × ℕ))
    → get k (bucket_onto es t0 w h) ≡ delivered k t0 w es + get k h
unfolding bucket_onto delivered
get-bucket_onto k t0 w [] h = omega arith
get-bucket_onto k t0 w ((ts, n) ∷ es) h =
    let b = bucket_start t0 w ts in
    omega (arith, get-bucket_onto k t0 w es (add_to b n h), get-add_to k b n h)

-- The histogram has in each bucket what the log says of it.
pub get-bucket : (k t0 w : ℕ) (es : List (ℕ × ℕ)) → get k (bucket es t0 w) ≡ delivered k t0 w es
unfolding bucket get
get-bucket k t0 w es = omega (arith, get-bucket_onto k t0 w es [])

max_sec-add_to : (k n : ℕ) (h : List (ℕ × ℕ)) → max k (max_sec h) ≤ max_sec (add_to k n h)
unfolding max_sec add_to
max_sec-add_to k n [] = omega arith
max_sec-add_to k n ((j, m) ∷ h) = ground (arith, max_sec-add_to k n h)

max_sec-bucket_onto : (t0 w : ℕ) (es h : List (ℕ × ℕ)) → max_sec h ≤ max_sec (bucket_onto es t0 w h)
unfolding bucket_onto
max_sec-bucket_onto t0 w [] h = omega arith
max_sec-bucket_onto t0 w ((ts, n) ∷ es) h =
    let b = bucket_start t0 w ts in
    omega (arith, max_sec-bucket_onto t0 w es (add_to b n h), max_sec-add_to b n h)

lt_of_succ-le : (a b : ℕ) → suc a ≤ b → a < b
lt_of_succ-le a b h = omega arith

fits : (b w m : ℕ) → 0 < w → b * w ≤ m → suc b * w ≤ m + w + w - 1
fits b w m pos h = omega (arith, suc-mul b w)

-- No bucket starts after the last.
within :
    (t0 w : ℕ) (es h : List (ℕ × ℕ))
    → All (λ e. bucket_start t0 w e.0 ≤ max_sec (bucket_onto es t0 w h)) es
unfolding bucket_onto
within t0 w [] h = tt
within t0 w ((ts, n) ∷ es) h =
    let b = bucket_start t0 w ts in
    let h' = add_to b n h in
    (omega (arith, max_sec-bucket_onto t0 w es h', max_sec-add_to b n h), within t0 w es h')

within_bucket :
    (t0 w : ℕ) (es : List (ℕ × ℕ)) → All (λ e. bucket_start t0 w e.0 ≤ max_sec (bucket es t0 w)) es
unfolding bucket
within_bucket t0 w es = within t0 w es []

same_multiple : (w i b : ℕ) → 0 < w → (b * w == i * w) ≡ (b == i)
same_multiple w i b pos = elim (Bool-cases (b * w == i * w)) [
  | inl yes_it_is ↦ grind (arith, eq_of_mul-eq-mul_right w pos b i)
  | inr not_it_is ↦ elim (Bool-cases (b == i)) [
    | inl same ↦ grind (arith, ap (λ j. j * w) (equal b i same))
    | inr other ↦ rw not_it_is (sym other)
  ]
]

-- A number is met once in the rows that hold it, and not in the others.
pick :
    (w b n i k : ℕ)
    → 0 < w
    → sum (map (λ j. if b * w == j then n else 0) (map (λ j. j * w) (count_from i k)))
      ≡ (if leb i b && ltb b (i + k) then n else 0)
pick w b n i zero pos = ground arith
pick w b n i (suc k) pos = rw (same_multiple w i b pos) (ground (arith, pick w b n (suc i) k pos))

sum-map-add :
    (f g : ℕ → ℕ) (xs : List ℕ) → sum (map (λ x. f x + g x) xs) ≡ sum (map f xs) + sum (map g xs)
sum-map-add f g [] = omega arith
sum-map-add f g (x ∷ xs) = omega (arith, sum-map-add f g xs)

sum-map-zero : (xs : List ℕ) → sum (map (λ x. 0) xs) ≡ 0
sum-map-zero [] = refl
sum-map-zero (x ∷ xs) = omega (arith, sum-map-zero xs)

-- Every event falls into one of the rows.
in_rows :
    (t0 w ts m : ℕ)
    → 0 < w
    → bucket_start t0 w ts ≤ m
    → (b : ℕ) × ((bucket_start t0 w ts ≡ b * w) × (b < (m + w + w - 1) / w))
unfolding bucket_start
in_rows t0 w ts m pos h =
    let b = (if ltb ts t0 then 0 else ts - t0) / w in
    (b, (refl, lt_of_succ-le b _ ((le-div_iff_mul-le pos).1 (fits b w m pos h))))

one_row :
    (t0 w ts n m : ℕ)
    → 0 < w
    → bucket_start t0 w ts ≤ m
    → sum (map (λ k. if bucket_start t0 w ts == k then n else 0) (range_by (m + w) w)) ≡ n
one_row t0 w ts n m pos h =
    let (b, (starts, below)) = in_rows t0 w ts m pos h in
    rw starts (grind (arith, pick w b n 0 ((m + w + w - 1) / w) pos))

sum-delivered :
    (t0 w m : ℕ) (es : List (ℕ × ℕ))
    → 0 < w
    → All (λ e. bucket_start t0 w e.0 ≤ m) es
    → sum (map (λ k. delivered k t0 w es) (range_by (m + w) w)) ≡ sum (counts es)
unfolding delivered
sum-delivered t0 w m [] pos h = sum-map-zero (range_by (m + w) w)
sum-delivered t0 w m ((ts, n) ∷ es) pos (h, hs) =
    let rows = range_by (m + w) w in
    let this : ℕ → ℕ = λ k. if bucket_start t0 w ts == k then n else 0 in
    omega (
      arith,
      sum-map-add this (λ k. delivered k t0 w es) rows,
      one_row t0 w ts n m pos h,
      sum-delivered t0 w m es pos hs,
    )

counts_rows : (f : ℕ → ℕ) (xs : List ℕ) → counts (map (λ s. (s, f s)) xs) ≡ map f xs
counts_rows f [] = refl
counts_rows f (x ∷ xs) = ap (λ ys. f x ∷ ys) (counts_rows f xs)

map-eq : (f g : ℕ → ℕ) (xs : List ℕ) → ((x : ℕ) → f x ≡ g x) → map f xs ≡ map g xs
map-eq f g [] h = refl
map-eq f g (x ∷ xs) h = rw (h x, map-eq f g xs h) refl

rows_total :
    (t0 w : ℕ) (es : List (ℕ × ℕ))
    → 0 < w
    → sum (counts (csv_rows (bucket es t0 w) w)) ≡ sum (counts es)
unfolding csv_rows
rows_total t0 w es pos =
    let hist = bucket es t0 w in
    rw
      (
        counts_rows (λ s. get s hist) (range_by (max_sec hist + w) w),
        map-eq (λ s. get s hist) (λ k. delivered k t0 w es) (range_by (max_sec hist + w) w)
            (λ k. get-bucket k t0 w es),
      )
      (sum-delivered t0 w (max_sec hist) es pos (within_bucket t0 w es))

rows_right :
    (t0 w : ℕ) (es : List (ℕ × ℕ)) (xs : List ℕ)
    → All (λ (r : ℕ × ℕ). r.1 ≡ delivered r.0 t0 w es) (map (λ s. (s, get s (bucket es t0 w))) xs)
rows_right t0 w es [] = tt
rows_right t0 w es (x ∷ xs) = (get-bucket x t0 w es, rows_right t0 w es xs)

-- What a report has to say of the events of a log.
abbrev pub IsAccount : List (ℕ × ℕ) → ℕ → Report → Type 0
IsAccount es w no_data = es ≡ []
IsAccount es w zero_division = (w ≡ 0) × (0 < length es)
IsAccount es w (written s) =
    (0 < length es)
    × (s.total_events ≡ sum (counts es))
    × (sum (counts s.rows) ≡ s.total_events)
    × All (λ (r : ℕ × ℕ). r.1 ≡ delivered r.0 s.t0 w es) s.rows

summary-IsAccount :
    (es : List (ℕ × ℕ)) (t0 w : ℕ)
    → 0 < w
    → 0 < length es
    → IsAccount es w (written (summary es t0 w))
unfolding csv_rows
summary-IsAccount es t0 w pos some_there = (
  some_there,
  refl,
  rows_total t0 w es pos,
  rows_right t0 w es (range_by (max_sec (bucket es t0 w) + w) w),
)

report_of-IsAccount :
    (es : List (ℕ × ℕ)) (files : List (List (List ℕ))) (w : ℕ)
    → IsAccount es w (report_of es files w)
unfolding report_of
report_of-IsAccount [] files w = refl
report_of-IsAccount ((ts, n) ∷ es) files w =
    let t0 = start_of (find_t0_from_producer files) ts es in
    elim (Bool-cases (w == 0)) [
      | inl zero_width ↦ rw zero_width (equal w 0 zero_width, omega arith)
      | inr positive ↦
          rw positive (summary-IsAccount ((ts, n) ∷ es) t0 w (not_zero w positive) (omega arith))
    ]

pub report-IsAccount :
    (log : List (List ℕ)) (files : List (List (List ℕ))) (w : ℕ)
    → IsAccount (parse_notice_log log) w (report log files w)
unfolding report
report-IsAccount log files w = report_of-IsAccount (parse_notice_log log) files w
