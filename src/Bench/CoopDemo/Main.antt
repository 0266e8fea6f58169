-- ===== src/Bench/CoopDemo/Main.antt =====
-- `main` of coop_demo.py. The two consumers run in threads of their own: `counts` reads what their
-- handlers have counted, and starting and stopping them are steps on the state. Times are
-- milliseconds; `none` means that the fuel of the wait ran out.
pub mod Exits
use pg_que.Base.{
  ℕ, zero, suc, ◌+◌, ◌≡◌, refl, String, Bool, true, false, Option, none, some, List, [], ◌∷◌, ltb,
  leb, ◌==◌, if◌then◌else◌, Bool-cases, inl, inr, equal, arith,
}
use pg_que.Errors.{Exn}
use pg_que.Exec.{Result, ok, err, Exec, pure, ◌>>=◌, ◌>>◌, after, follow}
use pg_que.Driver.{Driver}
use pg_que.Client
use pg_que.Client.{with_client}
use pg_que.Bench.Connection.{Connection}
use pg_que.Bench.CoopDemo.{total, exit_code, prepare, clean_up}

pub record Workers (S : Type 0) : Type 0 where
  pub counts : S → List (String × ℕ)
  pub start : S → S
  -- `stop()` of both, and `join` with its timeout
  pub stop : S → S

-- The exit code, and the counts that the summary prints.
abbrev pub Outcome : Type 0
Outcome = ℕ × List (String × ℕ)

module _ (D : Driver) (K : Connection D) (W : Workers D.State) where
  -- The loop that waits for the workers.
  unfoldable pub wait_done : ℕ → ℕ → ℕ → Exec D.State (Option (Unit {0}))
  wait_done zero n_events deadline s = (ok none, s)
  wait_done (suc fuel) n_events deadline s =
      let (now, s1) = K.time s in
      let again = wait_done fuel n_events deadline (K.sleep 100 s1) in
      if ltb now deadline
      then if leb n_events (total (W.counts s1)) then (ok (some tt), s1) else again
      else (ok (some tt), s1)

  -- The two consumers, from their start to the end of their threads.
  unfoldable pub run_workers : ℕ → ℕ → ℕ → Exec D.State (Option (Unit {0}))
  run_workers fuel n_events run_time s =
      let (now, s1) = K.time (W.start s) in
      let (r, s2) = wait_done fuel n_events (now + run_time) s1 in (r, W.stop s2)

  -- `with pgque.connect(dsn) as client: body`
  unfoldable pub with_connect : String → Exec D.State (Unit {0}) → Exec D.State (Unit {0})
  with_connect dsn body = do client ← Client.connect D dsn false; with_client D client (λ c. body)

  -- The end of `main`: the clean-up, and the exit code for what was counted.
  unfoldable pub finish_demo :
      String → String → String → ℕ → Option (Unit {0}) → Exec D.State (Option Outcome)
  finish_demo dsn queue consumer n_events none s = pure none s
  finish_demo dsn queue consumer n_events (some u) s =
      (do
        with_connect dsn (clean_up D K queue consumer)
        pure (some (exit_code (W.counts s) n_events, W.counts s)))
        s

  unfoldable pub run_demo : ℕ → String → String → String → ℕ → ℕ → Exec D.State (Option Outcome)
  run_demo fuel dsn queue consumer n_events run_time = do
    with_connect dsn (prepare D K queue consumer n_events)
    waited ← run_workers fuel n_events run_time
    finish_demo dsn queue consumer n_events waited

  -- `main`: without `PGQUE_TEST_DSN`, or with an empty one, the exit code is 1.
  unfoldable pub demo_main :
      ℕ → Option String → String → String → ℕ → ℕ → Exec D.State (Option Outcome)
  demo_main fuel none queue consumer n_events run_time = pure (some (1, []))
  demo_main fuel (some String.[]) queue consumer n_events run_time = pure (some (1, []))
  demo_main fuel (some (String.◌∷◌ ch text)) queue consumer n_events run_time =
      run_demo fuel (String.◌∷◌ ch text) queue consumer n_events run_time
