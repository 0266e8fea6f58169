-- ===== src/Consumer/Runtime.antt =====
-- What clients/python/pgque/consumer.py uses of `time`, `select`, `signal` and `threading`, and of
-- psycopg's notifications: actions on a state `S`, as everything outside may change between two of
-- them. Times are milliseconds; the program's are floats of seconds.
use pg_que.Base.{ℕ, String, Bool, ◌+◌, ◌≤◌, ◌≡◌, false}
use pg_que.Exec.{Exec, ok}

pub record Runtime (S : Type 0) : Type 0 where
  -- `self._running`: any thread, signal or handler may have cleared it.
  pub read_running : S → Bool × S
  pub set_running : Bool → S → S
  -- `time.monotonic()`, `time.sleep(t)`
  pub monotonic : S → ℕ × S
  pub sleep : ℕ → S → S
  -- `conn.notifies(timeout=0)` to its end: whether there was any
  pub notifies : Exec S Bool
  -- `select.select([fd], [], [], t)`: whether the socket is readable
  pub select : ℕ → Exec S Bool
  -- Whether this is the main thread; saving and installing the signal handlers; restoring them
  pub in_main_thread : S → Bool
  pub install_signals : S → S
  pub restore_signals : S → S
  -- `sql.Identifier(name)` in a statement
  pub identifier : String → String

-- Documented behaviour of the clock and of the calls that wait.
pub record IsTicking {S : Type 0} (R : Runtime S) : Type 0 where
  -- The time at a state.
  pub time : S → ℕ
  pub time_running : (s : S) → time s ≤ time (R.read_running s).1
  pub time_monotonic_before : (s : S) → time s ≤ (R.monotonic s).0
  pub time_monotonic_after : (s : S) → (R.monotonic s).0 ≤ time (R.monotonic s).1
  -- A sleep takes its time, and so does a `select` that times out.
  pub time_sleep : (t : ℕ) (s : S) → time s + t ≤ time (R.sleep t s)
  pub time_select :
      (t : ℕ) (s : S) → (R.select t s).0 ≡ ok false → time s + t ≤ time (R.select t s).1
