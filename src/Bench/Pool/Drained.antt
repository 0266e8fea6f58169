-- ===== src/Bench/Pool/Drained.antt =====
-- What the loop of consumer_pool.py has done when it ends.
use pg_que.Base.{ℕ, ◌≤◌, Option, none, some}
use pg_que.Value.{Value}
use pg_que.Exec.{Result, ok, err, Exec}
use pg_que.Driver.{Driver}
use pg_que.Bench.Connection.{Connection}
use pg_que.Bench.Pool.{Counters}

-- A run that has ended without an error has processed what was expected.
abbrev pub IsDone : ℕ → Result (Option Counters) → Type 0
IsDone n (ok (some c)) = n ≤ c.processed
IsDone n (ok none) = Unit
IsDone n (err e) = Unit
