-- ===== src/Examples/Sessions.antt =====
-- The loops of the consumer, at the server in memory.
use pg_que.Base.{ℕ, ◌+◌, ◌≡◌, ◌≢◌, refl, true, false, none, some, List, [], ◌∷◌, ltb, arith}
use pg_que.Value.{Value}
use pg_que.Errors.{pgque, receive_overflow}
use pg_que.Exec.{ok, err}
use pg_que.Consumer.{World}
use pg_que.Consumer.Runtime.{Runtime, IsTicking}
use pg_que.Consumer.Waiting.{
  after_select, wait_loop, wait_for_notify_or_stop, sleep_before_reconnect,
}
use pg_que.Consumer.Waiting.Bounds.{
  sleep_before_reconnect_ends, wait_for_notify_or_stop_ends, wait_for_notify_or_stop_agrees,
  with_select,
}
use pg_que.Consumer.Session.{
  is_transient, session_loop, run_session, start_loop, after_session, recover, start,
}
use pg_que.Consumer.Session.Outcomes.{Burst, IsFinal, start_raises, session_loop_drains}
use pg_que.Examples.Opened.{opened}
use pg_que.Examples.Toy.{Toy, toy}
use pg_que.Examples.Polls.{consumer, server, world, row}
use pg_que.Examples.Overflows.{full, plain, overflow}

-- A state that is the time. Nobody stops the consumer, and no notification comes.
abbrev clock : Runtime ℕ
clock = record {
  read_running = λ s. (true, s);
  set_running = λ b s. s;
  monotonic = λ s. (s, s);
  sleep = λ t s. s + t;
  notifies = λ s. (ok false, s);
  select = λ t s. (ok false, s + t);
  in_main_thread = λ s. true;
  install_signals = λ s. s;
  restore_signals = λ s. s;
  identifier = λ name. name;
}

clock-IsTicking : IsTicking clock
clock-IsTicking = record {
  time = λ s. s;
  time_running = λ s. omega arith;
  time_monotonic_before = λ s. omega arith;
  time_monotonic_after = λ s. omega arith;
  time_sleep = λ t s. omega arith;
  time_select = λ t s h. omega arith;
}

sleep_before_reconnect_ends_example : (sleep_before_reconnect clock 5 2 0).0 ≡ some tt
sleep_before_reconnect_ends_example =
    sleep_before_reconnect_ends clock clock-IsTicking 5 2 0 (omega arith)

wait_for_notify_or_stop_ends_example : (wait_for_notify_or_stop clock 5 2 0).0 ≢ ok none
wait_for_notify_or_stop_ends_example =
    wait_for_notify_or_stop_ends clock clock-IsTicking 5 2 0 (omega arith)

wait_takes_two_seconds : wait_for_notify_or_stop clock 5 2 0 ≡ (ok (some tt), 2000)
unfolding wait_for_notify_or_stop wait_loop after_select
wait_takes_two_seconds = refl

wait_for_notify_or_stop_agrees_example :
    wait_for_notify_or_stop clock 5 2 0
    ≡ wait_for_notify_or_stop (with_select clock (λ t s. (ok false, s + t))) 5 2 0
wait_for_notify_or_stop_agrees_example =
    wait_for_notify_or_stop_agrees clock (λ t s. (ok false, s + t)) (λ t s h. refl) 5 2 0

-- The consumer runs while its handlers have counted less than `limit`.
abbrev until : ℕ → Runtime (World Toy ℕ)
until limit = record {
  read_running = λ w. (ltb w.app limit, w);
  set_running = λ b w. w;
  monotonic = λ w. (0, w);
  sleep = λ t w. w;
  notifies = λ w. (ok true, w);
  select = λ t w. (ok true, w);
  in_main_thread = λ w. true;
  install_signals = λ w. w;
  restore_signals = λ w. w;
  identifier = λ name. name;
}

abbrev steady : List (List Value)
steady = row 1 "good" ∷ []

abbrev served : ℕ → ℕ → World Toy ℕ
served polls app = record {
  db = record (server steady none false) { pending = polls; stored = polls; in_block = false };
  app = app;
}

one-Burst : Burst toy (until 3) consumer 1 (world (server steady none false)) (served 2 1)
unfolding opened
one-Burst = (refl, refl, refl, refl)

session_loop_drains_example :
    session_loop toy (until 3) consumer 5 (world (server steady none false))
    ≡ session_loop toy (until 3) consumer 4 (served 2 1)
session_loop_drains_example =
    session_loop_drains toy (until 3) consumer 1 4 5 (world (server steady none false)) (served 2 1)
      (omega arith) one-Burst

start_is_overflown :
    (start toy (until 3) consumer 3 (full plain)).0
    ≡ err (pgque (receive_overflow (overflow "receive" plain)))
unfolding opened run_session session_loop start start_loop after_session recover is_transient
start_is_overflown = refl

start_raises_example : IsFinal (pgque (receive_overflow (overflow "receive" plain)))
start_raises_example =
    start_raises toy (until 3) consumer 3 (pgque (receive_overflow (overflow "receive" plain)))
      (full plain) start_is_overflown
