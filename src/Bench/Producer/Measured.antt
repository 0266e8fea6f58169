-- ===== src/Bench/Producer/Measured.antt =====
-- The durations of `measure` of bench_producer.py.
use pg_que.Base.{ℕ, suc, ◌≡◌, refl, ap, String, List, [], ◌∷◌, length}
use pg_que.Value.{Value}
use pg_que.Exec.{Result, ok, err, Exec, pure, follow, after}
use pg_que.Driver.{Driver}
use pg_que.Bench.Connection.{Connection}
use pg_que.Bench.Producer.{measure, finally, timed, remove, bench_payloads}

-- A duration for each queue.
abbrev pub HasAll : List String → Result (List ℕ) → Type 0
HasAll queues (ok durations) = length durations ≡ length queues
HasAll queues (err e) = Unit

module _ (D : Driver) (K : Connection D) where
  one_more :
      (queue : String) (queues : List String) (elapsed : ℕ) (r : Result (List ℕ)) (s : D.State)
      → HasAll queues r
      → HasAll (queue ∷ queues) (follow (λ durations. pure (elapsed ∷ durations)) r s).0
  one_more queue queues elapsed (ok ds) s h = ap suc h
  one_more queue queues elapsed (err e) s h = tt

  -- If `measure` ends without an error, it has as many durations as queues.
  pub measure-HasAll :
      (fn : String → List Value → Exec D.State (Unit {0})) (method : String) (n : ℕ)
      (queues : List String) (s : D.State)
      → HasAll queues (measure D K fn method n queues s).0
  unfolding measure
  measure-HasAll fn method n [] s = refl
  measure-HasAll fn method n (queue ∷ queues) s =
      after (HasAll (queue ∷ queues)) _ _ _ (λ e. tt)
        (λ u1 s1.
          after (HasAll (queue ∷ queues)) _ (K.commit s1).0 (K.commit s1).1 (λ e. tt)
            (λ u2 s2.
              let m =
                finally D K (timed D K fn queue n (bench_payloads method n)) (remove D K queue) in
              after (HasAll (queue ∷ queues)) _ (m s2).0 (m s2).1 (λ e. tt)
                (λ elapsed s3.
                  let (r, s4) = measure D K fn method n queues s3 in
                  one_more queue queues elapsed r s4 (measure-HasAll fn method n queues s3))))
