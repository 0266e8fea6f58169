-- ===== src/Bench/CoopDemo.antt =====
-- clients/python/bench/coop_demo.py: events in several ticks, two cooperative consumers, and the
-- count of what each of them has handled. Printing is not modelled.
pub mod Published
pub mod Counted
pub mod Main
use pg_que.Base.{
  ℕ, ◌+◌, ◌-◌, ◌/◌, min, max, String, Bool, true, false, List, [], ◌∷◌, ◌==◌, map, str_eq, sum,
  if◌then◌else◌, count_from, range_by,
}
use pg_que.Value.{Value, ℤ, nat, str, obj, end, field}
use pg_que.Errors.{Exn, pgque, assertion_error}
use pg_que.Exec.{Exec, pure, raise, catching, ◌>>=◌, ◌>>◌}
use pg_que.Driver.{Driver, Query}
use pg_que.Client
use pg_que.Bench.Connection.{Connection}

abbrev pub event_payload : ℕ → Value
event_payload i = obj (field "i" (nat i) (field "demo" (str "coop") end))

-- The payloads of the chunk that starts at `start`.
unfoldable pub payloads_at : ℕ → ℕ → ℕ → List Value
payloads_at n chunk start = map event_payload (count_from start (min chunk (n - start)))

abbrev pub chunk_size : ℕ → ℕ
chunk_size n = max 1 (n / 4)

abbrev ticker_query : String → Query
ticker_query queue = record { text = "select pgque.ticker(%s)"; params = str queue ∷ [] }

-- `if worker in counts` and its count
abbrev pub count_of : String → List (String × ℕ) → ℕ
count_of worker [] = 0
count_of worker ((w, n) ∷ counts) = if str_eq w worker then n else count_of worker counts

-- The body of `_on_event` under the lock: `counts[worker] = counts.get(worker, 0) + 1`.
unfoldable pub on_event : String → List (String × ℕ) → List (String × ℕ)
on_event worker [] = (worker, 1) ∷ []
on_event worker ((w, n) ∷ counts) =
    if str_eq w worker then (w, n + 1) ∷ counts else (w, n) ∷ on_event worker counts

-- `sum(counts.values())`
abbrev pub total : List (String × ℕ) → ℕ
total counts = sum (map (λ c. c.1) counts)

-- `return 0 if total == n_events else 2`
unfoldable pub exit_code : List (String × ℕ) → ℕ → ℕ
exit_code counts n_events = if total counts == n_events then 0 else 2

-- `except pgque.PgqueError`
abbrev except_pgque {ℓ} : {S A : Type ℓ} → Exec S A → Exn → Exec S A
except_pgque m (pgque e) = m
except_pgque m e = raise e

module _ (D : Driver) (K : Connection D) where
  -- The statements of one round of `_publish`.
  unfoldable pub publish_chunk : String → List Value → Exec D.State (Unit {0})
  publish_chunk queue payloads = do
    Client.send_batch D queue "demo.coop" payloads
    K.commit
    Client.force_next_tick D queue
    D.execute (ticker_query queue)
    K.commit

  -- The loop of `_publish`: how many events have been sent.
  unfoldable pub publish_loop : String → ℕ → ℕ → List ℕ → ℕ → Exec D.State ℕ
  publish_loop queue n chunk [] sent = pure sent
  publish_loop queue n chunk (start ∷ starts) sent = do
    publish_chunk queue (payloads_at n chunk start)
    publish_loop queue n chunk starts (sent + min chunk (n - start))

  -- `_publish`. For a negative number the range is empty, and the assertion fails.
  unfoldable pub publish : String → ℤ → Exec D.State (Unit {0})
  publish queue (ℤ.negsuc k) = raise assertion_error
  publish queue (ℤ.pos n) = do
    sent ← publish_loop queue n (chunk_size n) (range_by n (chunk_size n)) 0
    if sent == n then pure tt else raise assertion_error

  -- `_drain_subconsumers`
  unfoldable pub drain_subconsumers : String → String → List String → Exec D.State (Unit {0})
  drain_subconsumers queue consumer [] = pure tt
  drain_subconsumers queue consumer (sub ∷ subs) = do
    catching (do Client.unsubscribe_subconsumer D queue consumer sub 1; K.commit)
        (except_pgque K.rollback)
    drain_subconsumers queue consumer subs

  -- The first `with` block of `main`, for a number of events that is not negative.
  unfoldable pub prepare : String → String → ℕ → Exec D.State (Unit {0})
  prepare queue consumer n_events = do
    D.execute (record { text = "select pgque.create_queue(%s)"; params = str queue ∷ [] })
    K.commit
    Client.subscribe_subconsumer D queue consumer "worker-1"
    Client.subscribe_subconsumer D queue consumer "worker-2"
    K.commit
    publish queue (ℤ.pos n_events)

  -- The last `with` block of `main`. An error of psycopg is no `PgqueError`, so `drop_queue` on the
  -- bare connection lets it out.
  unfoldable pub clean_up : String → String → Exec D.State (Unit {0})
  clean_up queue consumer = do
    drain_subconsumers queue consumer ("worker-1" ∷ "worker-2" ∷ [])
    catching
        (do
          D.execute (record { text = "select pgque.drop_queue(%s, true)"; params = str queue ∷ [] })
          K.commit)
        (except_pgque K.rollback)
