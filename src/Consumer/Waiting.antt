-- ===== src/Consumer/Waiting.antt =====
-- `_wait_for_notify_or_stop` and `_sleep_before_reconnect` of clients/python/pgque/consumer.py.
-- Their loops take fuel; the result `none` means that it ran out.
pub mod Bounds
use pg_que.Base.{
  ℕ, zero, suc, ◌+◌, ◌-◌, ◌*◌, min, Bool, Option, none, some, leb, not, if◌then◌else◌,
}
use pg_que.Exec.{Exec, pure, ◌>>=◌, ◌>>◌, follow, ok}
use pg_que.Consumer.Runtime.{Runtime}

-- `_WAIT_SLICE_SECONDS`, in milliseconds
abbrev pub wait_slice : ℕ
wait_slice = 500

module _ {S : Type 0} (R : Runtime S) where
  -- After `select`: stop, or drain the notifications, or go round again.
  unfoldable pub after_select : Bool → Exec S (Option (Unit {0})) → Exec S (Option (Unit {0}))
  after_select readable again s =
      let (running, s') = R.read_running s in
      if not running
      then (ok (some tt), s')
      else if readable
      then (R.notifies >>= λ n. pure (some tt)) s'
      else again s'

  unfoldable pub wait_loop : ℕ → ℕ → Exec S (Option (Unit {0}))
  wait_loop zero deadline s = (ok none, s)
  wait_loop (suc fuel) deadline s =
      let (running, s1) = R.read_running s in
      let (now, s2) = R.monotonic s1 in
      let round =
        (R.select (min wait_slice (deadline - now)) >>= λ readable.
        after_select readable (wait_loop fuel deadline))
          s2 in
      if not running
      then (ok (some tt), s1)
      else if leb deadline now
      then (ok (some tt), s2)
      else round

  unfoldable pub wait_for_notify_or_stop : ℕ → ℕ → Exec S (Option (Unit {0}))
  wait_for_notify_or_stop fuel poll_interval = do
    drained ← R.notifies
    λ s.
        let (now, s') = R.monotonic s in
        if drained then (ok (some tt), s) else wait_loop fuel (now + poll_interval * 1000) s'

  unfoldable pub sleep_loop : ℕ → ℕ → S → Option (Unit {0}) × S
  sleep_loop zero deadline s = (none, s)
  sleep_loop (suc fuel) deadline s =
      let (running, s1) = R.read_running s in
      let (now, s2) = R.monotonic s1 in
      let rest = sleep_loop fuel deadline (R.sleep (min wait_slice (deadline - now)) s2) in
      if not running then (some tt, s1) else if leb deadline now then (some tt, s2) else rest

  unfoldable pub sleep_before_reconnect : ℕ → ℕ → S → Option (Unit {0}) × S
  sleep_before_reconnect fuel poll_interval s =
      let (now, s') = R.monotonic s in sleep_loop fuel (now + poll_interval * 1000) s'
