-- ===== src/Bench/Sessions/Stacked.antt =====
-- What `bucket_stack` of r8_ash_analyze.py counts.
use pg_que.Base.{
  ℕ, ◌+◌, ◌/◌, ◌<◌, ◌≡◌, Bool, false, List, [], ◌∷◌, ltb, ◌==◌, ◌&&◌, if◌then◌else◌, length,
  Bool-cases, inl, inr, arith,
}
use pg_que.Value.{ℤ}
use pg_que.Bench.Sessions.{
  Category, Row, Stack, same_category, no_stack, add_at, add_off, add_row, stack_loop, num_samples,
  bucket_stack,
}

-- Whether an offset lies in a bucket, of those that are kept.
abbrev pub falls_into : ℕ → ℕ → ℕ → ℤ → Bool
falls_into bucket_s n b (ℤ.negsuc k) = false
falls_into bucket_s n b (ℤ.pos off) = ltb (off / bucket_s) n && b == off / bucket_s

-- The rows of a category in a bucket.
abbrev pub rows_in : ℕ → ℕ → Category → ℕ → List Row → ℕ
rows_in bucket_s n c b [] = 0
rows_in bucket_s n c b (row ∷ rows) =
    (if falls_into bucket_s n b row.off && same_category c row.cat then 1 else 0)
    + rows_in bucket_s n c b rows

add_off_lem :
    (bucket_s n b : ℕ) (off : ℤ) (c cat : Category) (s : Stack)
    → (add_off bucket_s n off cat s).mat c b
      ≡ (if falls_into bucket_s n b off && same_category c cat then 1 else 0) + s.mat c b
unfolding add_off add_at
add_off_lem bucket_s n b (ℤ.negsuc k) c cat s = omega arith
add_off_lem bucket_s n b (ℤ.pos off) c cat s = elim (Bool-cases (ltb (off / bucket_s) n)) [
  | inr outside ↦ rw outside (omega arith)
  | inl kept ↦ rw kept (elim (Bool-cases (same_category c cat)) [
    | inl same ↦ rw same (ground arith)
    | inr another ↦ rw another (ground arith)
  ])
]

stack_loop_lem :
    (bucket_s n b : ℕ) (c : Category) (rows : List Row) (s : Stack)
    → (stack_loop bucket_s n rows s).mat c b ≡ rows_in bucket_s n c b rows + s.mat c b
unfolding stack_loop add_row
stack_loop_lem bucket_s n b c [] s = omega arith
stack_loop_lem bucket_s n b c (row ∷ rows) s = omega (
  arith,
  stack_loop_lem bucket_s n b c rows (add_off bucket_s n row.off row.cat s),
  add_off_lem bucket_s n b row.off c row.cat s,
)

length_pos : (xs : List ℕ) → 0 < (elim xs [ [] ↦ 1 | x ∷ xs ↦ length (x ∷ xs) ])
length_pos [] = omega arith
length_pos (x ∷ xs) = omega arith

-- For every list of rows, category and bucket, the numerator of the mean is the number of rows of the
-- category in the bucket, where rows before the start or past the last bucket are in none, and the
-- divisor is not 0.
pub bucket_stack_counts :
    (rows : List Row) (bucket_s total_s : ℕ) (c : Category) (b : ℕ)
    → ((bucket_stack rows bucket_s total_s c b).0 ≡ rows_in bucket_s (total_s / bucket_s) c b rows)
      × (0 < (bucket_stack rows bucket_s total_s c b).1)
unfolding bucket_stack num_samples
bucket_stack_counts rows bucket_s total_s c b =
    let n = total_s / bucket_s in
    (
      grind (arith, stack_loop_lem bucket_s n b c rows no_stack),
      length_pos ((stack_loop bucket_s n rows no_stack).samples_in_bucket b),
    )
