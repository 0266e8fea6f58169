-- ===== src/Bench/Events.antt =====
-- benchmark/tooling/parse_events_consumed.py: the log of a consumer, as events per second.
pub mod Totals
use pg_que.Base.{
  ℕ, zero, suc, ◌+◌, ◌-◌, ◌*◌, ◌/◌, Bool, true, false, Option, none, some, List, [], ◌∷◌, map, min,
  max, ltb, leb, ◌==◌, ◌&&◌, ◌||◌, if◌then◌else◌, length, sum, range_by, range_by,
}
use pg_que.Base.Texts.{codes}

infixl 5 ◌>>=◌
abbrev ◌>>=◌ {ℓ κ} : {A : Type ℓ} {B : Type κ} → Option A → (A → Option B) → Option B
none >>= f = none
some a >>= f = f a

-- A number read at the front of a text, and what is left of it.
abbrev is_digit : ℕ → Bool
is_digit c = leb b'0' c && leb c b'9'

abbrev is_space : ℕ → Bool
is_space c = c == 32 || (leb 9 c && leb c 13 || leb 28 c && leb c 31)

-- A literal of a pattern, at the front of a text.
unfoldable pub literal : List ℕ → List ℕ → Option (List ℕ)
literal [] s = some s
literal (p ∷ ps) [] = none
literal (p ∷ ps) (c ∷ s) = if p == c then literal ps s else none

unfoldable pub skip_spaces : List ℕ → List ℕ
skip_spaces [] = []
skip_spaces (c ∷ s) = if is_space c then skip_spaces s else c ∷ s

-- `\s+`: at least one. What follows it in the patterns is no space, so it takes all there are.
unfoldable pub spaces : List ℕ → Option (List ℕ)
spaces [] = none
spaces (c ∷ s) = if is_space c then some (skip_spaces s) else none

unfoldable pub read_digits : ℕ → List ℕ → ℕ × List ℕ
read_digits a [] = (a, [])
read_digits a (c ∷ s) =
    let rest = read_digits (10 * a + (c - b'0')) s in if is_digit c then rest else (a, c ∷ s)

-- `(\d+)`, as `int` reads it.
unfoldable pub number : List ℕ → Option (ℕ × List ℕ)
number [] = none
number (c ∷ s) = if is_digit c then some (read_digits 0 (c ∷ s)) else none

-- `NOTICE_RE` at the front of a text, on the characters of ASCII.
unfoldable pub notice_here : List ℕ → Option (ℕ × ℕ)
notice_here s = do
  s1 ← literal (codes "NOTICE:") s
  s2 ← spaces s1
  s3 ← literal (codes "ev") s2
  s4 ← spaces s3
  s5 ← literal (codes "ts=") s4
  (ts, s6) ← number s5
  s7 ← spaces s6
  s8 ← literal (codes "n=") s7
  (n, s9) ← number s8
  some (ts, n)

-- `NOTICE_RE.search`: the first place that matches.
unfoldable pub notice : List ℕ → Option (ℕ × ℕ)
notice [] = notice_here []
notice (c ∷ s) = elim (notice_here (c ∷ s)) [ none ↦ notice s | some e ↦ some e ]

-- `parse_notice_log`: the events of the lines that match, in their order.
unfoldable pub parse_notice_log : List (List ℕ) → List (ℕ × ℕ)
parse_notice_log [] = []
parse_notice_log (line ∷ lines) = elim (notice line) [
  | none ↦ parse_notice_log lines
  | some e ↦ e ∷ parse_notice_log lines
]

-- `\d{n}`
unfoldable pub digits : ℕ → ℕ → List ℕ → Option (ℕ × List ℕ)
digits zero a s = some (a, s)
digits (suc n) a [] = none
digits (suc n) a (c ∷ s) = if is_digit c then digits n (10 * a + (c - b'0')) s else none

-- `(?:\.\d+)?`: without digits after it the point is not skipped, and no space follows then.
unfoldable pub skip_fraction : List ℕ → List ℕ
skip_fraction [] = []
skip_fraction (c ∷ s) = if c == b'.' then elim (number s) [ none ↦ c ∷ s | some r ↦ r.1 ] else c ∷ s

-- `AGG_FIRST_TS_RE.match`
unfoldable pub first_ts : List ℕ → Option ℕ
first_ts line = do (ts, rest) ← digits 10 0 line; after ← spaces (skip_fraction rest); some ts

unfoldable pub first_some : List (List ℕ) → Option ℕ
first_some [] = none
first_some (line ∷ lines) = elim (first_ts line) [ none ↦ first_some lines | some t ↦ some t ]

-- `find_t0_from_producer`, of the candidates in sorted order, each the lines that can be read of
-- it: an `OSError` ends a file as its end does.
unfoldable pub find_t0_from_producer : List (List (List ℕ)) → Option ℕ
find_t0_from_producer [] = none
find_t0_from_producer (file ∷ files) = elim (first_some file) [
  | none ↦ find_t0_from_producer files
  | some t ↦ some t
]

-- `hist[k] += n` on a `defaultdict(int)`, in the order of insertion.
unfoldable pub add_to : ℕ → ℕ → List (ℕ × ℕ) → List (ℕ × ℕ)
add_to k n [] = (k, n) ∷ []
add_to k n ((j, m) ∷ hist) = if j == k then (j, m + n) ∷ hist else (j, m) ∷ add_to k n hist

-- `hist.get(k, 0)`
unfoldable pub get : ℕ → List (ℕ × ℕ) → ℕ
get k [] = 0
get k ((j, m) ∷ hist) = if j == k then m else get k hist

unfoldable pub bucket_start : ℕ → ℕ → ℕ → ℕ
bucket_start t0 width_s ts = (if ltb ts t0 then 0 else ts - t0) / width_s * width_s

-- `bucket`, from a histogram on. A width 0 raises: `report` looks at it first.
unfoldable pub bucket_onto : List (ℕ × ℕ) → ℕ → ℕ → List (ℕ × ℕ) → List (ℕ × ℕ)
bucket_onto [] t0 width_s hist = hist
bucket_onto ((ts, n) ∷ events) t0 width_s hist =
    bucket_onto events t0 width_s (add_to (bucket_start t0 width_s ts) n hist)

unfoldable pub bucket : List (ℕ × ℕ) → ℕ → ℕ → List (ℕ × ℕ)
bucket events t0 width_s = bucket_onto events t0 width_s []

-- The last of the sorted keys.
unfoldable pub max_sec : List (ℕ × ℕ) → ℕ
max_sec [] = 0
max_sec ((k, n) ∷ hist) = max k (max_sec hist)

-- The rows of the CSV file, with zeros for the empty buckets.
unfoldable pub csv_rows : List (ℕ × ℕ) → ℕ → List (ℕ × ℕ)
csv_rows hist width_s = map (λ s. (s, get s hist)) (range_by (max_sec hist + width_s) width_s)

abbrev pub counts : List (ℕ × ℕ) → List ℕ
counts = map (λ e. e.1)

abbrev pub min_ts : ℕ → List (ℕ × ℕ) → ℕ
min_ts t [] = t
min_ts t ((ts, n) ∷ events) = min_ts (min t ts) events

unfoldable pub useful : List (ℕ × ℕ) → ℕ
useful [] = 0
useful ((ts, n) ∷ events) = if ltb 0 n then suc (useful events) else useful events

-- What `main` writes; the averages, which are floats, are left out.
pub record Summary : Type 0 where
  pub t0 : ℕ
  pub rows : List (ℕ × ℕ)
  pub total_events : ℕ
  pub total_calls : ℕ
  pub useful_calls : ℕ
  pub run_s : ℕ

pub data Report : Type 0 where
  no_data : Report
  zero_division : Report
  written : Summary → Report

abbrev pub summary : List (ℕ × ℕ) → ℕ → ℕ → Summary
summary events t0 width_s = record {
  t0 = t0;
  rows = csv_rows (bucket events t0 width_s) width_s;
  total_events = sum (counts events);
  total_calls = length events;
  useful_calls = useful events;
  run_s = max_sec (bucket events t0 width_s) + width_s;
}

unfoldable pub start_of : Option ℕ → ℕ → List (ℕ × ℕ) → ℕ
start_of none ts events = min_ts ts events
start_of (some t) ts events = t

unfoldable pub report_of : List (ℕ × ℕ) → List (List (List ℕ)) → ℕ → Report
report_of [] files width_s = no_data
report_of ((ts, n) ∷ events) files width_s =
    if width_s == 0
    then zero_division
    else written
        (summary ((ts, n) ∷ events) (start_of (find_t0_from_producer files) ts events) width_s)

-- `main`, on the lines of the consumer's log and the producer's files. A negative width is not
-- modelled.
unfoldable pub report : List (List ℕ) → List (List (List ℕ)) → ℕ → Report
report log files width_s = report_of (parse_notice_log log) files width_s
