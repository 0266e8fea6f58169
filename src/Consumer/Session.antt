-- ===== src/Consumer/Session.antt =====
-- `_run_session` and `start` of clients/python/pgque/consumer.py, over the connection's and the
-- application's world. The loops take fuel, a round of a loop each; `none` means that it ran out.
pub mod Outcomes
use Prim.Native.String.{◌++◌ as ◌<>◌}
use pg_que.Base.{
  ℕ, zero, suc, ◌+◌, ◌*◌, Bool, true, false, Option, none, some, [], not, if◌then◌else◌,
}
use pg_que.Errors.{Exn, database, pgque, PgqueError, receive_overflow}
use pg_que.Exec.{Result, Exec, ok, err, pure, raise, ◌>>=◌, ◌>>◌}
use pg_que.Driver.{Driver, Query}
use pg_que.Consumer.{Consumer, World, Run, on_db, poll_once}
use pg_que.Consumer.Runtime.{Runtime}
use pg_que.Consumer.Waiting.{wait_for_notify_or_stop, sleep_before_reconnect}

-- `except PgqueReceiveOverflowError: raise` comes before `except (psycopg.Error, PgqueError)`.
unfoldable pub is_transient : Exn → Bool
is_transient (database e) = true
is_transient (pgque (receive_overflow r)) = false
is_transient (pgque e) = true
is_transient _ = false

module _ (D : Driver) {E : Type 0} (R : Runtime (World D.State E)) (c : Consumer E) where
  -- Fuel for one wait of `poll_interval`.
  abbrev pub wait_fuel : ℕ
  wait_fuel = 2 * c.poll_interval + 1

  abbrev Step : Type 0
  Step = Run D E (Option (Unit {0}))

  abbrev or_out_of_fuel : Option (Unit {0}) → Step → Step
  or_out_of_fuel none m = pure none
  or_out_of_fuel (some u) m = m

  -- A round of the loop of `_run_session` after its poll.
  unfoldable pub after_poll : Bool → Step → Step
  after_poll processed again w =
      let (running, w') = R.read_running w in
      let waited =
        (wait_for_notify_or_stop R wait_fuel c.poll_interval >>= λ r. or_out_of_fuel r again) w' in
      if not running then (ok (some tt), w') else if processed then again w' else waited

  unfoldable pub session_loop : ℕ → Step
  session_loop zero w = (ok none, w)
  session_loop (suc fuel) w =
      let (running, w') = R.read_running w in
      let round = (poll_once D c >>= λ processed. after_poll processed (session_loop fuel)) w' in
      if not running then (ok (some tt), w') else round

  abbrev pub listen_query : Query
  listen_query = record { text = "LISTEN " <> R.identifier ("pgque_" <> c.queue); params = [] }

  -- `_run_session`: the connection is closed at the end of its `with` block.
  unfoldable pub run_session : ℕ → Step
  run_session fuel = do
    on_db (D.connect c.dsn true)
    λ w.
        let (r, w') = (on_db (D.execute listen_query) >>= λ rows. session_loop fuel) w in
        (r, record w' { db = D.close w'.db })

  -- The handlers of the `try` in the loop of `start`.
  unfoldable pub recover : Exn → Step → Step
  recover e again w =
      let (running, w1) = R.read_running w in
      let slept =
        (let (r, w2) = sleep_before_reconnect R wait_fuel c.poll_interval w1 in
          or_out_of_fuel r again w2) in
      if not (is_transient e) then (err e, w) else if not running then (ok (some tt), w1) else slept

  -- What a session has come to.
  unfoldable pub after_session : Result (Option (Unit {0})) → Step → Step
  after_session (ok r) again = or_out_of_fuel r again
  after_session (err e) again = recover e again

  unfoldable pub start_loop : ℕ → Step
  start_loop zero w = (ok none, w)
  start_loop (suc fuel) w =
      let (running, w1) = R.read_running w in
      let round = (let (r, w2) = run_session fuel w1 in after_session r (start_loop fuel) w2) in
      if not running then (ok (some tt), w1) else round

  -- The `finally` of `start`
  unfoldable pub leave : Bool → World D.State E → World D.State E
  leave in_main w = let w' = R.set_running false w in if in_main then R.restore_signals w' else w'

  -- `start`
  unfoldable pub start : ℕ → Step
  start fuel w =
      let w1 = R.set_running true w in
      let in_main = R.in_main_thread w1 in
      let (r, w2) = start_loop fuel (if in_main then R.install_signals w1 else w1) in
      (r, leave in_main w2)

  -- `stop`, which any thread may call
  unfoldable pub stop : World D.State E → World D.State E
  stop = R.set_running false
