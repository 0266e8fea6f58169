-- ===== src/Bench/Sessions.antt =====
-- benchmark/charts/r8_ash_analyze.py: the active sessions of a benchmark by what they wait for, in
-- buckets of time. An offset is in seconds from the start, and may be negative.
pub mod Stacked
use pg_que.Base.{
  ℕ, ◌+◌, ◌/◌, String, Bool, true, false, List, [], ◌∷◌, ltb, ◌==◌, ◌&&◌, ◌||◌, if◌then◌else◌,
  length,
}
use pg_que.Base.Texts.{codes}
use pg_que.Value.{ℤ}

pub data Category : Type 0 where
  cpu : Category
  io : Category
  lw_lock : Category
  lock : Category
  client : Category
  ipc : Category
  activity : Category
  other : Category

abbrev is_space : ℕ → Bool
is_space c = c == 32 || (ltb 8 c && ltb c 14 || ltb 27 c && ltb c 32)

unfoldable pub left_strip : List ℕ → List ℕ
left_strip [] = []
left_strip (c ∷ s) = if is_space c then left_strip s else c ∷ s

-- A text without the spaces at its end.
unfoldable pub right_strip : List ℕ → List ℕ
right_strip [] = []
right_strip (c ∷ s) =
    let rest = right_strip s in
    elim rest [ [] ↦ if is_space c then [] else c ∷ [] | d ∷ t ↦ c ∷ d ∷ t ]

unfoldable pub same_codes : List ℕ → List ℕ → Bool
same_codes [] [] = true
same_codes [] (c ∷ s) = false
same_codes (d ∷ t) [] = false
same_codes (d ∷ t) (c ∷ s) = d == c && same_codes t s

-- `we.split(":")[0]`, which is the whole text if it has no colon.
unfoldable pub before_colon : List ℕ → List ℕ
before_colon [] = []
before_colon (c ∷ s) = if c == b':' then [] else c ∷ before_colon s

unfoldable pub category_of_prefix : List ℕ → Category
category_of_prefix p =
    if same_codes p (codes "LWLock")
    then lw_lock
    else if same_codes p (codes "Lock")
    then lock
    else if same_codes p (codes "IO")
    then io
    else if same_codes p (codes "Client")
    then client
    else if same_codes p (codes "IPC")
    then ipc
    else if same_codes p (codes "Activity")
    then activity
    else other

-- `cat_of`, on the characters of ASCII. No value is the empty text here.
unfoldable pub cat_of : List ℕ → Category
cat_of wait_event =
    let we = right_strip (left_strip wait_event) in
    if same_codes we [] || same_codes we (codes "NULL")
    then other
    else if same_codes we (codes "CPU*")
    then cpu
    else category_of_prefix (before_colon we)

abbrev pub same_category : Category → Category → Bool
same_category cpu cpu = true
same_category io io = true
same_category lw_lock lw_lock = true
same_category lock lock = true
same_category client client = true
same_category ipc ipc = true
same_category activity activity = true
same_category other other = true
same_category _ _ = false

pub record Row : Type 0 where
  pub off : ℤ
  pub cat : Category
  pub active_backends : ℕ

-- The matrix and the sets of `bucket_stack`, by category and bucket.
pub record Stack : Type 0 where
  pub mat : Category → ℕ → ℕ
  pub samples_in_bucket : ℕ → List ℕ

abbrev pub mem : ℕ → List ℕ → Bool
mem x [] = false
mem x (y ∷ ys) = x == y || mem x ys

-- `set.add`
abbrev pub add_sample : ℕ → List ℕ → List ℕ
add_sample x xs = if mem x xs then xs else x ∷ xs

abbrev pub no_stack : Stack
no_stack = record { mat = λ c b. 0; samples_in_bucket = λ b. [] }

-- A row with an offset from 0 on, in its bucket `b`.
unfoldable pub add_at : ℕ → ℕ → Category → Stack → Stack
add_at b off cat s = record {
  mat = λ c j. if same_category c cat && j == b then s.mat c j + 1 else s.mat c j;
  samples_in_bucket =
      λ j. if j == b then add_sample off (s.samples_in_bucket j) else s.samples_in_bucket j;
}

-- One round of the loop, by the offset: a negative offset has a negative bucket.
unfoldable pub add_off : ℕ → ℕ → ℤ → Category → Stack → Stack
add_off bucket_s n (ℤ.negsuc k) c s = s
add_off bucket_s n (ℤ.pos off) c s =
    if ltb (off / bucket_s) n then add_at (off / bucket_s) off c s else s

unfoldable pub add_row : ℕ → ℕ → Row → Stack → Stack
add_row bucket_s n row s = add_off bucket_s n row.off row.cat s

unfoldable pub stack_loop : ℕ → ℕ → List Row → Stack → Stack
stack_loop bucket_s n [] s = s
stack_loop bucket_s n (row ∷ rows) s = stack_loop bucket_s n rows (add_row bucket_s n row s)

-- `num_samples`
unfoldable pub num_samples : Stack → ℕ → ℕ
num_samples s b = elim (s.samples_in_bucket b) [ [] ↦ 1 | x ∷ xs ↦ length (x ∷ xs) ]

-- `bucket_stack`: the two sides of each mean. The width of a bucket is not 0: it is 60.
unfoldable pub bucket_stack : List Row → ℕ → ℕ → Category → ℕ → ℕ × ℕ
bucket_stack rows bucket_s total_s c b =
    let s = stack_loop bucket_s (total_s / bucket_s) rows no_stack in (s.mat c b, num_samples s b)
