-- ===== src/Bench/Preload.antt =====
-- benchmark/subconsumer-scaling/run.py: the messages that a run of the scaling benchmark starts
-- with, and what is left of them in each second. Its connection is in autocommit mode.
pub mod Chunks
pub mod Remaining
use Prim.Native.String.{◌++◌ as ◌<>◌}
use pg_que.Base.{
  ℕ, ◌+◌, ◌-◌, min, String, Bool, true, false, List, [], ◌∷◌, ◌==◌, map, if◌then◌else◌, count_from,
  range_by,
}
use pg_que.Base.Texts.{show}
use pg_que.Value.{Value, ℤ, bool, str, arr, to_items}
use pg_que.Errors.{value_error}
use pg_que.Exec.{Result, ok, err, Exec, pure, lift, ◌>>=◌, ◌>>◌}
use pg_que.Driver.{Driver, Query}
use pg_que.Client.{first_column}

-- `json.dumps({"msg_id": i + 1})`
unfoldable pub payload : ℕ → String
payload i = "{\"msg_id\": " <> (show (i + 1) <> "}")

-- The chunk that starts at the message `start`.
unfoldable pub chunk : ℕ → ℕ → ℕ → List String
chunk total chunk_size start =
    let stop = min (start + chunk_size) total in map payload (count_from start (stop - start))

abbrev no_step : Result (List (List String))
no_step = err (value_error "range() arg 3 must not be zero")

-- `payload_chunks`: `range` raises for a step of 0. With a negative step it goes down from 0, and no
-- chunk has a message.
unfoldable pub payload_chunks : ℤ → ℤ → Result (List (List String))
payload_chunks (ℤ.pos total) (ℤ.pos chunk_size) =
    if chunk_size == 0
    then no_step
    else ok (map (chunk total chunk_size) (range_by total chunk_size))
payload_chunks (ℤ.negsuc t) (ℤ.pos chunk_size) = if chunk_size == 0 then no_step else ok []
payload_chunks (ℤ.pos total) (ℤ.negsuc k) = ok []
payload_chunks (ℤ.negsuc t) (ℤ.negsuc k) = ok (map (λ start. []) (range_by (t + 1) (k + 1)))

-- The rows of backlog_per_sec.csv, from what was consumed so far on: the second, what has been
-- consumed up to its end, and what remains, at least 0.
unfoldable pub derive_from : ℕ → ℕ → List (ℕ × ℕ) → List (ℕ × ℕ × ℕ)
derive_from message_count cumulative [] = []
derive_from message_count cumulative ((sec, ev) ∷ rows) =
    let consumed = cumulative + ev in
    (sec, consumed, message_count - consumed) ∷ derive_from message_count consumed rows

-- `derive_backlog`, from the rows of events_consumed_per_sec.csv
unfoldable pub derive_backlog : ℕ → List (ℕ × ℕ) → List (ℕ × ℕ × ℕ)
derive_backlog message_count rows = derive_from message_count 0 rows

abbrev pub create_query : String → Query
create_query queue = record { text = "select pgque.create_queue(%s)"; params = str queue ∷ [] }

abbrev drop_query : String → Query
drop_query queue = record { text = "select pgque.drop_queue(%s, true)"; params = str queue ∷ [] }

abbrev pub ticker_query : String → Query
ticker_query queue = record { text = "select pgque.ticker(%s)"; params = str queue ∷ [] }

abbrev pub subscribe_query : String → String → Query
subscribe_query queue consumer = record {
  text = "select pgque.subscribe(%s, %s)";
  params = str queue ∷ str consumer ∷ [];
}

abbrev pub force_tick_query : String → Query
force_tick_query queue = record { text = "select pgque.force_tick(%s)"; params = str queue ∷ [] }

abbrev pub batch_query : String → List String → Query
batch_query queue texts = record {
  text = "select pgque.send_batch(%s, %s::text[])";
  params = str queue ∷ arr (to_items (map str texts)) ∷ [];
}

-- `exists (...)` is a truth value in SQL.
abbrev is_true : Value → Bool
is_true (bool b) = b
is_true _ = false

module _ (D : Driver) where
  unfoldable pub drop_queue_if_exists : String → Exec D.State (Unit {0})
  drop_queue_if_exists queue = do
    rows ← D.execute (record {
      text = "select exists(select 1 from pgque.queue where queue_name = %s)";
      params = str queue ∷ [];
    })
    exists ← lift (first_column rows)
    if is_true exists then (D.execute (drop_query queue) >> pure tt) else pure tt

  -- The loop of `prep_queue` over the chunks.
  unfoldable pub send_chunks : String → List (List String) → Exec D.State (Unit {0})
  send_chunks queue [] = pure tt
  send_chunks queue (c ∷ chunks) = do D.execute (batch_query queue c); send_chunks queue chunks

  unfoldable pub prep_queue : String → String → ℤ → ℤ → Exec D.State (Unit {0})
  prep_queue queue consumer message_count batch_size = do
    drop_queue_if_exists queue
    D.execute (create_query queue)
    D.execute (ticker_query queue)
    D.execute (subscribe_query queue consumer)
    chunks ← lift (payload_chunks message_count batch_size)
    send_chunks queue chunks
    D.execute (force_tick_query queue)
    D.execute (ticker_query queue)
    pure tt
