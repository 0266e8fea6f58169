-- ===== src/Bench/Preload/Remaining.antt =====
-- The rows of `derive_backlog` of run.py.
use pg_que.Base.{ℕ, ◌+◌, ◌-◌, ◌≤◌, ◌≡◌, refl, List, [], ◌∷◌, sum, arith}
use pg_que.Bench.Events.{counts}
use pg_que.Bench.Preload.{derive_from, derive_backlog}

-- The cumulative count of the last row.
abbrev pub last_cumulative : ℕ → List (ℕ × ℕ × ℕ) → ℕ
last_cumulative c [] = c
last_cumulative c ((sec, consumed, left) ∷ rows) = last_cumulative consumed rows

-- Each row has consumed at least what the row before it has, and leaves the rest of the messages.
abbrev pub IsBacklog : ℕ → ℕ → List (ℕ × ℕ × ℕ) → Type 0
IsBacklog count before [] = Unit
IsBacklog count before ((sec, consumed, left) ∷ rows) =
    (before ≤ consumed)
    × (left ≡ count - consumed)
    × (left ≤ count - before)
    × IsBacklog count consumed rows

derive_from-IsBacklog :
    (count before : ℕ) (rows : List (ℕ × ℕ))
    → IsBacklog count before (derive_from count before rows)
unfolding derive_from
derive_from-IsBacklog count before [] = tt
derive_from-IsBacklog count before ((sec, ev) ∷ rows) =
    (omega arith, refl, omega arith, derive_from-IsBacklog count (before + ev) rows)

last-derive_from :
    (count before : ℕ) (rows : List (ℕ × ℕ))
    → last_cumulative before (derive_from count before rows) ≡ before + sum (counts rows)
unfolding derive_from
last-derive_from count before [] = omega arith
last-derive_from count before ((sec, ev) ∷ rows) =
    omega (arith, last-derive_from count (before + ev) rows)

-- What has been consumed never falls and what remains never rises from row to row, what remains is
-- the rest of the messages, and the last row has consumed all that the table counts.
pub derive_backlog-IsBacklog :
    (count : ℕ) (rows : List (ℕ × ℕ))
    → IsBacklog count 0 (derive_backlog count rows)
      × (last_cumulative 0 (derive_backlog count rows) ≡ sum (counts rows))
unfolding derive_backlog
derive_backlog-IsBacklog count rows =
    (derive_from-IsBacklog count 0 rows, grind (arith, last-derive_from count 0 rows))
