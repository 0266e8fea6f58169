-- ===== src/Consumer/Session/Outcomes.antt =====
-- How the loops of the consumer end, and what they do between two batches.
use pg_que.Base.{
  ℕ, zero, suc, ◌+◌, ◌≡◌, true, false, Option, none, some, arith, Bool-cases, inl, inr,
}
use pg_que.Errors.{
  Exn, database, pgque, type_error, index_error, value_error, runtime_error, assertion_error,
  application, interrupt, base_error, receive_overflow, connection_error, queue_not_found,
  batch_not_found, consumer_not_found,
}
use pg_que.Exec.{Result, ok, err}
use pg_que.Driver.{Driver}
use pg_que.Consumer.{Consumer, World, Run, poll_once}
use pg_que.Consumer.Runtime.{Runtime}
use pg_que.Consumer.Waiting.{sleep_before_reconnect}
use pg_que.Consumer.Session.{
  is_transient, after_poll, session_loop, recover, after_session, start_loop, start, wait_fuel,
}

-- No error of psycopg, and none of the library but a receive overflow.
abbrev pub IsFinal : Exn → Type 0
IsFinal (database e) = ⊥
IsFinal (pgque (base_error m)) = ⊥
IsFinal (pgque (receive_overflow r)) = Unit
IsFinal (pgque (connection_error m)) = ⊥
IsFinal (pgque (queue_not_found m)) = ⊥
IsFinal (pgque (batch_not_found m)) = ⊥
IsFinal (pgque (consumer_not_found m)) = ⊥
IsFinal type_error = Unit
IsFinal index_error = Unit
IsFinal (value_error m) = Unit
IsFinal (runtime_error m) = Unit
IsFinal assertion_error = Unit
IsFinal (application m) = Unit
IsFinal interrupt = Unit

final : (e : Exn) → is_transient e ≡ false → IsFinal e
unfolding is_transient
final (database e) h = cc
final (pgque (base_error m)) h = cc
final (pgque (receive_overflow r)) h = tt
final (pgque (connection_error m)) h = cc
final (pgque (queue_not_found m)) h = cc
final (pgque (batch_not_found m)) h = cc
final (pgque (consumer_not_found m)) h = cc
final type_error h = tt
final index_error h = tt
final (value_error m) h = tt
final (runtime_error m) h = tt
final assertion_error h = tt
final (application m) h = tt
final interrupt h = tt

module _ (D : Driver) {E : Type 0} (R : Runtime (World D.State E)) (c : Consumer E) where
  recover_raises :
      (x e : Exn) (again : Run D E (Option (Unit {0}))) (w : World D.State E)
      → ((w' : World D.State E) → (again w').0 ≡ err e → is_transient e ≡ false)
      → (recover D R c x again w).0 ≡ err e
      → is_transient e ≡ false
  unfolding recover
  recover_raises x e again w ih h =
      let w1 = (R.read_running w).1 in
      let w2 = (sleep_before_reconnect R (wait_fuel D R c) c.poll_interval w1).1 in
      ground (arith, ih w2)

  after_session_raises :
      (r : Result (Option (Unit {0}))) (e : Exn) (again : Run D E (Option (Unit {0})))
      (w : World D.State E)
      → ((w' : World D.State E) → (again w').0 ≡ err e → is_transient e ≡ false)
      → (after_session D R c r again w).0 ≡ err e
      → is_transient e ≡ false
  unfolding after_session
  after_session_raises (ok none) e again w ih h = absurd (cc)
  after_session_raises (ok (some u)) e again w ih h = ih w h
  after_session_raises (err x) e again w ih h = recover_raises x e again w ih h

  start_loop_raises :
      (fuel : ℕ) (e : Exn) (w : World D.State E)
      → (start_loop D R c fuel w).0 ≡ err e
      → is_transient e ≡ false
  unfolding start_loop
  start_loop_raises zero e w h = absurd (cc)
  start_loop_raises (suc fuel) e w h = elim (Bool-cases (R.read_running w).0) [
    | inl running ↦
        after_session_raises _ e (start_loop D R c fuel) _ (start_loop_raises fuel e)
          (rw running at h)
    | inr stopped ↦ absurd (cc (stopped, h))
  ]

  -- Whatever `start` raises is no `psycopg.Error`, and of the library's own errors only a receive
  -- overflow: it survives all the others.
  pub start_raises :
      (fuel : ℕ) (e : Exn) (w : World D.State E) → (start D R c fuel w).0 ≡ err e → IsFinal e
  unfolding start
  start_raises fuel e w h = final e (start_loop_raises fuel e _ h)

  -- `n` polls in a row process a batch each, and nobody stops the consumer.
  abbrev pub Burst : ℕ → World D.State E → World D.State E → Type 0
  Burst zero w w' = w ≡ w'
  Burst (suc n) w w' =
      let (running, w1) = R.read_running w in
      let (processed, w2) = poll_once D c w1 in
      let (still, w3) = R.read_running w2 in
      (running ≡ true) × (processed ≡ ok true) × (still ≡ true) × Burst n w3 w'

  -- After any number of polls that each processed a batch, with the consumer running throughout, the
  -- session goes on from the state that the polls alone have left: there was no wait between them.
  pub session_loop_drains :
      (n fuel total : ℕ) (w w' : World D.State E)
      → total ≡ n + fuel
      → Burst n w w'
      → session_loop D R c total w ≡ session_loop D R c fuel w'
  unfolding session_loop after_poll
  session_loop_drains zero fuel total w w' e h = let e' : total ≡ fuel = omega arith in rw (e', h)
  session_loop_drains (suc n) fuel zero w w' e h = absurd (omega arith)
  session_loop_drains (suc n) fuel (suc total) w w' e (running, processed, still, rest) =
      rw (running, processed, still) (session_loop_drains n fuel total _ w' (omega arith) rest)
