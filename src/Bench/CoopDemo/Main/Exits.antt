-- ===== src/Bench/CoopDemo/Main/Exits.antt =====
-- The exit code of coop_demo.py.
use pg_que.Base.{
  ℕ, ◌≡◌, ◌≤◌, refl, Bool, String, Option, none, some, List, [], ◌==◌, false, if◌then◌else◌,
  Bool-cases, inl, inr, equal, arith,
}
use pg_que.Exec.{Result, ok, err, after}
use pg_que.Driver.{Driver}
use pg_que.Bench.Connection.{Connection}
use pg_que.Bench.CoopDemo.{total, exit_code, prepare, clean_up}
use pg_que.Bench.CoopDemo.Main.{
  Workers, Outcome, with_connect, run_workers, finish_demo, run_demo, demo_main,
}

no_zero : (n : ℕ) (b : Bool) → n ≡ (if b then 0 else 2) → b ≡ false → n ≡ 0 → 1 ≤ 0
no_zero n b e f h = ground arith

zero_exit : (counts : List (String × ℕ)) (n : ℕ) → exit_code counts n ≡ 0 → total counts ≡ n
unfolding exit_code
zero_exit counts n h = elim (Bool-cases (total counts == n)) [
  | inl all ↦ equal (total counts) n all
  | inr some_lost ↦
      absurd (omega (arith, no_zero (exit_code counts n) (total counts == n) refl some_lost h))
]

module _ (D : Driver) (K : Connection D) (W : Workers D.State) (n_events : ℕ) where
  -- With exit code 0 the summary counts as many messages as there are events.
  abbrev pub IsExit : Result (Option Outcome) → Type 0
  IsExit (ok (some (code, counts))) = code ≡ 0 → total counts ≡ n_events
  IsExit (ok none) = Unit
  IsExit (err e) = Unit

  finish_demo-IsExit :
      (dsn queue consumer : String) (waited : Option (Unit {0})) (s : D.State)
      → IsExit (finish_demo D K W dsn queue consumer n_events waited s).0
  unfolding finish_demo
  finish_demo-IsExit dsn queue consumer none s = tt
  finish_demo-IsExit dsn queue consumer (some u) s =
      let (r, s1) = with_connect D K W dsn (clean_up D K queue consumer) s in
      after IsExit _ r s1 (λ e. tt) (λ v s2 h. zero_exit (W.counts s) n_events h)

  run_demo-IsExit :
      (fuel : ℕ) (dsn queue consumer : String) (run_time : ℕ) (s : D.State)
      → IsExit (run_demo D K W fuel dsn queue consumer n_events run_time s).0
  unfolding run_demo
  run_demo-IsExit fuel dsn queue consumer run_time s =
      let (r, s1) = with_connect D K W dsn (prepare D K queue consumer n_events) s in
      after IsExit _ r s1 (λ e. tt)
        (λ u s2.
          let (waited, s3) = run_workers D K W fuel n_events run_time s2 in
          after IsExit _ waited s3 (λ e. tt) (finish_demo-IsExit dsn queue consumer))

  one_is_not_zero : (m : ℕ) → m ≡ 1 → m ≡ 0 → total [] ≡ n_events
  one_is_not_zero m e h = absurd (omega arith)

  -- If the demo ends with exit code 0, the counts of its summary add up to the number of events that
  -- it was to publish.
  pub demo_main-IsExit :
      (fuel : ℕ) (dsn : Option String) (queue consumer : String) (run_time : ℕ) (s : D.State)
      → IsExit (demo_main D K W fuel dsn queue consumer n_events run_time s).0
  unfolding demo_main
  demo_main-IsExit fuel none queue consumer run_time s = one_is_not_zero 1 refl
  demo_main-IsExit fuel (some String.[]) queue consumer run_time s = one_is_not_zero 1 refl
  demo_main-IsExit fuel (some (String.◌∷◌ ch text)) queue consumer run_time s =
      run_demo-IsExit fuel (String.◌∷◌ ch text) queue consumer run_time s
