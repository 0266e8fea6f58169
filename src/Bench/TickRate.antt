-- ===== src/Bench/TickRate.antt =====
-- benchmark/tick-rate/bench.py: a producer and a consumer that measure the latency of a queue, each
-- on its own connection in autocommit mode. Times are microseconds, and the table is not modelled.
use pg_que.Base.{
  ℕ, zero, suc, ◌+◌, ◌-◌, min, String, Bool, true, Option, none, some, List, [], ◌∷◌, ◌++◌, not,
  ltb, if◌then◌else◌,
}
use pg_que.Value.{Value, nat, str}
use pg_que.Errors.{is_exception, index_error}
use pg_que.Exec.{Result, ok, err, Exec, pure, raise, lift, catching, ◌>>=◌, ◌>>◌}
use pg_que.Driver.{Driver, Query}
use pg_que.Bench.Connection.{Connection}

abbrev queue_query : String → String → Query
queue_query text queue = record { text = text; params = str queue ∷ [] }

abbrev pair_query : String → String → String → Query
pair_query text queue consumer = record { text = text; params = str queue ∷ str consumer ∷ [] }

abbrev pub send_query : String → ℕ → Query
send_query queue seq = record {
  text =
      "select pgque.send(%s, jsonb_build_object('seq', %s::int, 'send_ts', extract(epoch from clock_timestamp())))";
  params = str queue ∷ nat seq ∷ [];
}

abbrev pub receive_query : String → String → Query
receive_query queue consumer = record {
  text =
      "select extract(epoch from clock_timestamp()), payload, batch_id from pgque.receive(%s, %s, 1000)";
  params = str queue ∷ str consumer ∷ [];
}

abbrev subscription_text : String
subscription_text =
    "select 1 from pgque.subscription s join pgque.queue q on q.queue_id=s.sub_queue where q.queue_name=%s and s.sub_consumer=(select co_id from pgque.consumer where co_name=%s)"

-- `except Exception: pass`
abbrev ignoring {ℓ} : {S A : Type ℓ} → A → Exec S A → Exec S A
ignoring a m = catching m (λ e. if is_exception e then pure a else raise e)

-- `if not cur.fetchone(): cur.execute(q)`
abbrev unless_found : (D : Driver) → List (List Value) → Query → Exec D.State (Unit {0})
unless_found D [] q = do D.execute q; pure tt
unless_found D (row ∷ rows) q = pure tt

-- The counters of `producer_thread`: `errors` is the length of its list.
pub record Produced : Type 0 where
  pub sent : ℕ
  pub errors : ℕ
  pub next_send : ℕ

-- `rows[0][2]`
abbrev third_column : List Value → Result Value
third_column (u ∷ v ∷ w ∷ row) = ok w
third_column row = err index_error

module _ (D : Driver) (K : Connection D) where
  -- `setup`
  unfoldable pub setup : String → String → Exec D.State (Unit {0})
  setup queue consumer = do
    found ← D.execute (queue_query "select 1 from pgque.queue where queue_name = %s" queue)
    unless_found D found (queue_query "select pgque.create_queue(%s)" queue)
    D.execute
        (queue_query "select pgque.set_queue_config(%s, 'ticker_max_lag', '1 microsecond')" queue)
    D.execute (
        queue_query "select pgque.set_queue_config(%s, 'ticker_idle_period', '1 microsecond')"
          queue)
    D.execute (queue_query "select pgque.set_queue_config(%s, 'ticker_max_count', '1')" queue)
    subscribed ← D.execute (pair_query subscription_text queue consumer)
    unless_found D subscribed (pair_query "select pgque.subscribe(%s, %s)" queue consumer)

  -- `teardown`
  unfoldable pub teardown : String → String → Exec D.State (Unit {0})
  teardown queue consumer = do
    ignoring tt
        (do D.execute (pair_query "select pgque.unsubscribe(%s, %s)" queue consumer); pure tt)
    ignoring tt (do D.execute (queue_query "select pgque.drop_queue(%s)" queue); pure tt)

  -- `stop_evt.is_set()`, which another thread sets.
  module _ (is_set : D.State → Bool) where
    -- The `try` of `producer_thread`, whatever the send has come to.
    unfoldable pub after_send :
        ℕ → Produced → Result (List (List Value)) → D.State → Result Produced × D.State
    after_send interval p (ok rows) s =
        (ok (record p { sent = p.sent + 1; next_send = p.next_send + interval }), s)
    after_send interval p (err e) s =
        if is_exception e
        then (ok (record p { errors = p.errors + 1; next_send = p.next_send + interval }), s)
        else (err e, s)

    unfoldable pub send_one : String → ℕ → Produced → Exec D.State Produced
    send_one queue interval p s =
        let (r, s') = D.execute (send_query queue p.sent) s in after_send interval p r s'

    -- The loop of `producer_thread`, on fuel: `none` means that it ran out. A sleep is at most 1 ms.
    unfoldable pub produce_loop : ℕ → String → ℕ → ℕ → ℕ → Produced → Exec D.State (Option Produced)
    produce_loop zero queue interval start duration p s = (ok none, s)
    produce_loop (suc fuel) queue interval start duration p s =
        let (looked, s1) = K.time s in
        let (now, s2) = K.time s1 in
        let waited =
          produce_loop fuel queue interval start duration p
            (K.sleep (min (p.next_send - now) 1000) s2) in
        let sent =
          (send_one queue interval p >>= produce_loop fuel queue interval start duration) s2 in
        if is_set s
        then (ok (some p), s)
        else if not (ltb (looked - start) duration)
        then (ok (some p), s1)
        else if ltb now p.next_send
        then waited
        else sent

    -- `producer_thread` from its second statement on, given the interval, on its own connection, which
    -- is closed at the end.
    unfoldable pub producer_thread : ℕ → String → String → ℕ → ℕ → Exec D.State (Option Produced)
    producer_thread fuel dsn queue interval duration s =
        let (start, s1) = K.time s in
        (D.connect dsn true >>= λ u s2.
        let (r, s3) =
          produce_loop fuel queue interval start duration
            (record { sent = 0; errors = 0; next_send = start }) s2 in
        (r, D.close s3))
          s1

    -- `latency row` is the time between the two stamps of a row, which may raise.
    module _ {T : Type 0} (latency : List Value → Result T) where
      unfoldable pub latencies_of : List (List Value) → Result (List T)
      latencies_of [] = ok []
      latencies_of (row ∷ rows) = elim (latency row) [
        | err e ↦ err e
        | ok t ↦ elim (latencies_of rows) [ err e ↦ err e | ok ts ↦ ok (t ∷ ts) ]
      ]

      -- A round of the loop of `consumer_thread`, with the rows that it has received.
      unfoldable pub on_received :
          (ℕ → List T → Exec D.State (Option (List T)))
          → ℕ
          → ℕ
          → List T
          → List (List Value)
          → Exec D.State (Option (List T))
      on_received again drain last_msg_at got [] s =
          let (now, s1) = K.time s in
          if not (is_set s)
          then again last_msg_at got (K.sleep 1000 s)
          else if ltb drain (now - last_msg_at)
          then (ok (some got), s1)
          else again last_msg_at got (K.sleep 1000 s1)
      on_received again drain last_msg_at got (row ∷ rows) s =
          let (now, s1) = K.time s in
          (do
            bid ← lift (third_column row)
            new ← lift (latencies_of (row ∷ rows))
            D.execute (record { text = "select pgque.ack(%s)"; params = bid ∷ [] })
            again now (got ++ new))
            s1

      -- The loop of `consumer_thread`: the latencies, of which `received` is the number.
      unfoldable pub consume_loop :
          ℕ → String → String → ℕ → ℕ → List T → Exec D.State (Option (List T))
      consume_loop zero queue consumer drain last_msg_at got s = (ok none, s)
      consume_loop (suc fuel) queue consumer drain last_msg_at got s =
          (do
            rows ← D.execute (receive_query queue consumer)
            on_received (consume_loop fuel queue consumer drain) drain last_msg_at got rows)
            s
