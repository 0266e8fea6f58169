-- ===== src/Bench/Producer.antt =====
-- clients/python/bench_producer.py: the time to send a number of events, by a loop of `send` or by
-- one `send_batch`. The median, of floats, and printing are not modelled.
pub mod Measured
use Prim.Native.String.{◌++◌ as ◌<>◌}
use pg_que.Base.{
  ℕ, ◌+◌, ◌-◌, String, Bool, true, false, List, [], ◌∷◌, ◌==◌, map, if◌then◌else◌, count_from,
}
use pg_que.Value.{Value, ℤ, int, nat, str, obj, end, field}
use pg_que.Errors.{Exn, runtime_error}
use pg_que.Exec.{Result, ok, err, Exec, pure, raise, lift, ◌>>=◌, ◌>>◌}
use pg_que.Driver.{Driver, Query}
use pg_que.Client
use pg_que.Client.{first_column}
use pg_que.Bench.Connection.{Connection}

abbrev queue_query : String → String → Query
queue_query text queue = record { text = text; params = str queue ∷ [] }

-- `{"i": i, "lang": "python", "method": method}` for each `i`
unfoldable pub bench_payloads : String → ℕ → List Value
bench_payloads method n =
    map
      (λ i. obj (field "i" (nat i) (field "lang" (str "python") (field "method" (str method) end))))
      (count_from 0 n)

-- The name of a table in an f-string.
abbrev table_name : Value → String
table_name (str t) = t
table_name _ = ""

-- `got == expected`
abbrev is_count : ℕ → Value → Bool
is_count n (int (ℤ.pos m)) = m == n
is_count n _ = false

module _ (D : Driver) (K : Connection D) where
  unfoldable pub send_loop : String → List Value → Exec D.State (Unit {0})
  send_loop queue [] = pure tt
  send_loop queue (payload ∷ payloads) = do
    Client.send D queue payload "bench.producer"
    send_loop queue payloads

  -- `send_batch` of the benchmark
  unfoldable pub send_at_once : String → List Value → Exec D.State (Unit {0})
  send_at_once queue payloads = do Client.send_batch D queue "bench.producer" payloads; pure tt

  unfoldable pub verify_count : String → ℕ → Exec D.State (Unit {0})
  verify_count queue expected = do
    tables ← D.execute (queue_query "select pgque.current_event_table(%s)" queue)
    table ← lift (first_column tables)
    counts ← D.execute (record { text = "select count(*) from " <> table_name table; params = [] })
    got ← lift (first_column counts)
    if is_count expected got then pure tt else raise (runtime_error "unexpected number of events")

  -- The block of the `try` of `measure`: the time elapsed.
  unfoldable pub timed :
      (String → List Value → Exec D.State (Unit {0})) → String → ℕ → List Value → Exec D.State ℕ
  timed fn queue n payloads s =
      let (start, s1) = K.time s in
      (do
        fn queue payloads
        K.commit
        λ s2. let (now, s3) = K.time s2 in (do verify_count queue n; pure (now - start)) s3)
        s1

  -- Its `finally`
  unfoldable pub remove : String → Exec D.State (Unit {0})
  remove queue = do
    K.rollback
    D.execute (queue_query "select pgque.drop_queue(%s, true)" queue)
    K.commit

  -- `try: m finally: c`: an error of `c` takes the place of what `m` has come to.
  unfoldable pub finally : {A : Type 0} → Exec D.State A → Exec D.State (Unit {0}) → Exec D.State A
  finally m c s =
      let (r, s1) = m s in let (q, s2) = c s1 in (elim q [ ok u ↦ r | err e ↦ err e ], s2)

  -- The loop of `measure`, over the names of its queues, which are random: the durations.
  unfoldable pub measure :
      (String → List Value → Exec D.State (Unit {0}))
      → String
      → ℕ
      → List String
      → Exec D.State (List ℕ)
  measure fn method n [] = pure []
  measure fn method n (queue ∷ queues) = do
    D.execute (queue_query "select pgque.create_queue(%s)" queue)
    K.commit
    elapsed ← finally (timed fn queue n (bench_payloads method n)) (remove queue)
    durations ← measure fn method n queues
    pure (elapsed ∷ durations)
