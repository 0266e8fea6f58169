-- ===== src/Consumer/Waiting/Bounds.antt =====
-- The waits of the consumer end, and wait in slices of at most half a second.
use pg_que.Base.{
  ℕ, zero, suc, ◌+◌, ◌-◌, ◌*◌, ◌≤◌, ◌<◌, min, ◌≡◌, ◌≢◌, refl, Bool, true, false, Option, none, some,
  leb, not, if◌then◌else◌, arith, ap,
}
use mathlib.Core.Path.{fun_ext}
use pg_que.Exec.{Exec, Result, pure, ◌>>=◌, follow, ok, err}
use pg_que.Consumer.Runtime.{Runtime, IsTicking}
use pg_que.Consumer.Waiting.{
  after_select, wait_loop, wait_for_notify_or_stop, sleep_loop, sleep_before_reconnect,
}

module _ {S : Type 0} (R : Runtime S) (T : IsTicking R) where
  -- `k` slices reach the deadline.
  sleep_loop_ends :
      (k fuel deadline : ℕ) (s : S)
      → deadline ≤ T.time s + 500 * k
      → k < fuel
      → (sleep_loop R fuel deadline s).0 ≡ some tt
  unfolding sleep_loop
  sleep_loop_ends k zero deadline s h f = absurd (omega arith)
  sleep_loop_ends zero (suc fuel) deadline s h f =
      let (r, s1) = R.read_running s in ground (arith, T.time_running s, T.time_monotonic_before s1)
  sleep_loop_ends (suc k) (suc fuel) deadline s h f =
      let (r, s1) = R.read_running s in
      let (now, s2) = R.monotonic s1 in
      let s3 = R.sleep (min 500 (deadline - now)) s2 in
      ground (
        arith,
        T.time_running s,
        T.time_monotonic_before s1,
        T.time_monotonic_after s1,
        T.time_sleep (min 500 (deadline - now)) s2,
        sleep_loop_ends k fuel deadline s3,
      )

  -- If time never runs back and a sleep lasts as long as it was asked to, fuel for two slices a second and one more is enough for
  -- the sleep before a reconnect: it ends.
  pub sleep_before_reconnect_ends :
      (fuel poll_interval : ℕ) (s : S)
      → 2 * poll_interval < fuel
      → (sleep_before_reconnect R fuel poll_interval s).0 ≡ some tt
  unfolding sleep_before_reconnect
  sleep_before_reconnect_ends fuel p s h =
      let (now, s') = R.monotonic s in
      sleep_loop_ends (2 * p) fuel (now + p * 1000) s' (omega (arith, T.time_monotonic_after s)) h

  drained_ends :
      (r : Result Bool) (s : S)
      → (follow {B = Option (Unit {0})} (λ n. pure (some tt)) r s).0 ≢ ok none
  drained_ends (ok b) s e = cc
  drained_ends (err x) s e = cc

  after_select_ends :
      (again : Exec S (Option (Unit {0}))) (r : Result Bool) (s : S)
      → (r ≡ ok false → (again (R.read_running s).1).0 ≢ ok none)
      → (follow (λ readable. after_select R readable again) r s).0 ≢ ok none
  unfolding after_select
  after_select_ends again (err x) s h = λ e. cc
  after_select_ends again (ok true) s h =
      let (running, s') = R.read_running s in
      let (r, s2) = R.notifies s' in ground (arith, drained_ends r s2)
  after_select_ends again (ok false) s h = ground (arith, h refl)

  wait_loop_ends :
      (k fuel deadline : ℕ) (s : S)
      → deadline ≤ T.time s + 500 * k
      → k < fuel
      → (wait_loop R fuel deadline s).0 ≢ ok none
  unfolding wait_loop
  wait_loop_ends k zero deadline s h f = absurd (omega arith)
  wait_loop_ends zero (suc fuel) deadline s h f =
      let (r, s1) = R.read_running s in ground (arith, T.time_running s, T.time_monotonic_before s1)
  wait_loop_ends (suc k) (suc fuel) deadline s h f =
      let (running, s1) = R.read_running s in
      let (now, s2) = R.monotonic s1 in
      let t = min 500 (deadline - now) in
      let (r, s3) = R.select t s2 in
      let s4 = (R.read_running s3).1 in
      let later : r ≡ ok false → deadline ≤ T.time s4 + 500 * k = λ timed_out. omega (
        arith,
        T.time_running s,
        T.time_monotonic_before s1,
        T.time_monotonic_after s1,
        T.time_select t s2 timed_out,
        T.time_running s3,
      ) in
      let ends =
        after_select_ends (wait_loop R fuel deadline) r s3
          (λ timed_out. wait_loop_ends k fuel deadline s4 (later timed_out) (omega arith)) in
      ground arith

  -- If time never runs back and a `select` that times out lasts as long as it was asked to, fuel for two slices a second and one
  -- more is enough for the wait for a notification: it returns or raises.
  pub wait_for_notify_or_stop_ends :
      (fuel poll_interval : ℕ) (s : S)
      → 2 * poll_interval < fuel
      → (wait_for_notify_or_stop R fuel poll_interval s).0 ≢ ok none
  unfolding wait_for_notify_or_stop
  wait_for_notify_or_stop_ends fuel p s h = let (r, s') = R.notifies s in notified r s'
    where
      notified :
          (r : Result Bool) (t : S)
          → (follow {B = Option (Unit {0})}
              (λ drained t.
                let (now, t') = R.monotonic t in
                if drained then (ok (some tt), t) else wait_loop R fuel (now + p * 1000) t')
              r
              t).0
            ≢ ok none
      notified (err x) t = λ e. cc
      notified (ok true) t = λ e. cc
      notified (ok false) t =
          let (now, t') = R.monotonic t in
          wait_loop_ends (2 * p) fuel (now + p * 1000) t' (omega (arith, T.time_monotonic_after t))
            h

module _ {S : Type 0} (R : Runtime S) (select : ℕ → Exec S Bool) where
  -- The same runtime with another `select`.
  abbrev pub with_select : Runtime S
  with_select = record R { select = select }

  wait_loop_agrees :
      (agrees : (t : ℕ) (s : S) → t ≤ 500 → R.select t s ≡ select t s) (fuel deadline : ℕ) (s : S)
      → wait_loop R fuel deadline s ≡ wait_loop with_select fuel deadline s
  unfolding wait_loop after_select
  wait_loop_agrees agrees zero deadline s = refl
  wait_loop_agrees agrees (suc fuel) deadline s =
      let (now, s2) = R.monotonic (R.read_running s).1 in
      rw (agrees (min 500 (deadline - now)) s2 (omega arith)) (
        ap
          (λ (again : Exec S (Option (Unit {0}))).
            if not (R.read_running s).0
            then (ok (some tt), (R.read_running s).1)
            else if leb deadline now
            then (ok (some tt), s2)
            else (select (min 500 (deadline - now)) >>= λ readable. after_select R readable again)
                s2)
          (fun_ext (wait_loop_agrees agrees fuel deadline)))

  -- No `select` of the wait is longer than half a second: with another `select`, which agrees with the
  -- first on waits up to that, the wait for a notification is the same.
  pub wait_for_notify_or_stop_agrees :
      (agrees : (t : ℕ) (s : S) → t ≤ 500 → R.select t s ≡ select t s) (fuel poll_interval : ℕ)
      (s : S)
      → wait_for_notify_or_stop R fuel poll_interval s
        ≡ wait_for_notify_or_stop with_select fuel poll_interval s
  unfolding wait_for_notify_or_stop
  wait_for_notify_or_stop_agrees agrees fuel p s =
      ap
        (λ (loop : ℕ → Exec S (Option (Unit {0}))).
          (R.notifies >>= λ drained t.
          let (now, t') = R.monotonic t in
          if drained then (ok (some tt), t) else loop (now + p * 1000) t')
            s)
        (fun_ext λ d. fun_ext (wait_loop_agrees agrees fuel d))
