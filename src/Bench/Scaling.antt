-- ===== src/Bench/Scaling.antt =====
-- `run_one` and `main` of benchmark/subconsumer-scaling/run.py: a run preloads a queue, drains it by
-- consumer_pool.py, derives the tables from that program's log, and drops the queue. Files that are
-- only written for a reader, and the charts, are not modelled.
pub mod Tables
use pg_que.Base.{
  ℕ, suc, Option, none, some, String, Bool, true, false, List, [], ◌∷◌, if◌then◌else◌, ◌==◌,
}
use pg_que.Errors.{Exn, value_error, application, runtime_error}
use pg_que.Value.{ℤ}
use pg_que.Exec.{Result, ok, err, Exec, pure, raise, lift, ◌>>=◌, ◌>>◌}
use pg_que.Driver.{Driver}
use pg_que.Bench.Connection.{Connection}
use pg_que.Bench.Events.{Report, no_data, zero_division, written, Summary, report}
use pg_que.Bench.Preload.{prep_queue, drop_queue_if_exists, derive_backlog}
use pg_que.Bench.Pool.{Args, Counters, drain}

-- The rows of events_consumed_per_sec.csv: without events it has none.
unfoldable pub rows_of : Report → Result (List (ℕ × ℕ))
rows_of no_data = ok []
rows_of zero_division = err (runtime_error "ZeroDivisionError")
rows_of (written s) = ok s.rows

-- `conn` of a `with psycopg.connect(...)` block is closed at its end.
module _ (D : Driver) (K : Connection D) (work : ℕ → D.State → D.State) where
  unfoldable pub with_connection : String → Exec D.State (Unit {0}) → Exec D.State (Unit {0})
  with_connection dsn body = do D.connect dsn true; λ s. let (r, s') = body s in (r, D.close s')

  -- `check=True`: a program that ends with an error.
  abbrev checked : {A : Type 0} → Result A → Result A
  checked (ok x) = ok x
  checked (err e) = err (application "CalledProcessError")

  -- `subprocess.run([... consumer_pool.py ...], check=True)`
  unfoldable pub run_pool : String → Args → ℕ → Exec D.State (Option Counters)
  run_pool dsn a fuel = do
    D.connect dsn true
    λ s. let (r, s') = drain D K work a fuel s in (checked r, D.close s')

  -- `run_one` after the pool: `log` is the lines that the pool has logged.
  unfoldable pub tables : String → Args → List (List ℕ) → Exec D.State (Option (List (ℕ × ℕ × ℕ)))
  tables dsn a log s =
      (do
        rows ← lift (rows_of (report log [] 1))
        with_connection dsn (drop_queue_if_exists D a.queue)
        pure (some (derive_backlog a.expected_messages rows)))
        s

  unfoldable pub derived :
      String → Args → List (List ℕ) → Option Counters → Exec D.State (Option (List (ℕ × ℕ × ℕ)))
  derived dsn a log none = pure none
  derived dsn a log (some counters) = tables dsn a log

  -- `run_one`: the rows of backlog_per_sec.csv, from the lines that the pool has logged. The result
  -- `none` means that the fuel of the pool ran out.
  unfoldable pub run_one :
      String → Args → ℤ → List (List ℕ) → ℕ → Exec D.State (Option (List (ℕ × ℕ × ℕ)))
  run_one dsn a batch_size log fuel = do
    with_connection dsn (prep_queue D a.queue a.consumer (ℤ.pos a.expected_messages) batch_size)
    drained ← run_pool dsn (record a { max_return = a.expected_messages }) fuel
    derived dsn a log drained
