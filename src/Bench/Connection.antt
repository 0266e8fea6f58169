-- ===== src/Bench/Connection.antt =====
-- What the programs of the benchmarks use of psycopg and the clock beside `execute`.
use pg_que.Base.{ℕ}
use pg_que.Exec.{Exec}
use pg_que.Driver.{Driver}

pub record Connection (D : Driver) : Type 0 where
  -- `conn.commit()` and `conn.rollback()`
  pub commit : Exec D.State Unit
  pub rollback : Exec D.State Unit
  -- `time.time()` and `time.sleep`, in milliseconds
  pub time : D.State → ℕ × D.State
  pub sleep : ℕ → D.State → D.State
