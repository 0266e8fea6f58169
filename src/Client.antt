-- ===== src/Client.antt =====
-- clients/python/pgque/client.py: `connect` and the methods of `PgqueClient`, each as an action on
-- the state of the driver, which holds the wrapped connection.
pub mod Requests
pub mod Raises
pub mod Keeps
pub mod Encoding
pub mod Faults
pub mod Lifecycle
use pg_que.Base.{
  ℕ, String, Bool, true, false, Option, none, some, List, [], ◌∷◌, ◌&&◌, not, if◌then◌else◌,
}
use pg_que.Value.{Value, str, nat}
use pg_que.Errors.{
  DbError, Exn, database, pgque, connection_error, type_error, index_error, is_exception,
}
use pg_que.Errors.Wrap.{wrap_sql_error}
use pg_que.Exec.{Result, ok, err, Exec, pure, raise, lift, catching, ◌>>=◌, ◌>>◌}
use pg_que.Types.{Message, messages_of_rows}
use pg_que.Driver.{Driver, Query}
use Requests.{
  send_request, send_batch_request, receive_query, receive_coop_query, ack_query, nack_request,
  list_of,
}

pub record PgqueClient : Type 0 where
  pub owns_conn : Bool

-- `except psycopg.Error as e: raise _wrap_sql_error(e, operation=…, configured_limit=…) from e`
unfoldable pub rewrap : Option String → Option ℕ → Exn → Exn
rewrap operation limit (database e) = pgque (wrap_sql_error e operation limit)
rewrap operation limit e = e

-- `except psycopg.OperationalError as e: raise PgqueConnectionError(str(e)) from e`
unfoldable pub rewrap_connect : Exn → Exn
rewrap_connect (database e) = if e.operational then pgque (connection_error e.text) else database e
rewrap_connect e = e

-- `fetchone()` and `row[0]`: the row is `None` if there is none.
unfoldable pub first_column : List (List Value) → Result Value
first_column [] = err type_error
first_column ([] ∷ rows) = err index_error
first_column ((v ∷ row) ∷ rows) = ok v

module _ (D : Driver) where
  -- `connect`
  unfoldable pub connect : String → Bool → Exec D.State PgqueClient
  connect dsn autocommit = do
    catching (D.connect dsn autocommit) (λ e. raise (rewrap_connect e))
    pure (record { owns_conn = true })

  -- `close`, which `__exit__` calls.
  unfoldable pub close : PgqueClient → D.State → D.State
  close c s = if c.owns_conn && not (D.closed s) then D.close s else s

  -- `with connect(dsn) as client: body`: the client is closed whether the body returns or raises.
  unfoldable pub with_client :
      {A : Type 0} → PgqueClient → (PgqueClient → Exec D.State A) → Exec D.State A
  with_client c body s = let (r, s') = body c s in (r, close c s')

  -- A statement inside `try … except psycopg.Error`.
  unfoldable pub run : Query → Option String → Option ℕ → Exec D.State (List (List Value))
  run q operation limit = catching (D.execute q) (λ e. raise (rewrap operation limit e))

  -- A statement whose method returns `row[0]`.
  unfoldable pub call : Query → Exec D.State Value
  call q = do rows ← run q none none; lift (first_column rows)

  unfoldable pub send : String → Value → String → Exec D.State Value
  send queue payload type = do q ← lift (send_request queue payload type); call q

  unfoldable pub send_batch : String → String → List Value → Exec D.State (List Value)
  send_batch queue type payloads = do
    q ← lift (send_batch_request queue type payloads)
    v ← call q
    lift (list_of v)

  unfoldable pub subscribe : String → String → Exec D.State Value
  subscribe queue consumer =
      call
        (record { text = "select pgque.subscribe(%s, %s)"; params = str queue ∷ str consumer ∷ [] })

  unfoldable pub unsubscribe : String → String → Exec D.State Value
  unsubscribe queue consumer =
      call (record {
        text = "select pgque.unsubscribe(%s, %s)";
        params = str queue ∷ str consumer ∷ [];
      })

  unfoldable pub receive : String → String → ℕ → Exec D.State (List Message)
  receive queue consumer max_messages = do
    rows ← run (receive_query queue consumer max_messages) (some "receive") (some max_messages)
    lift (messages_of_rows rows)

  unfoldable pub ack : Value → Exec D.State Value
  ack batch_id = call (ack_query batch_id)

  unfoldable pub force_next_tick : String → Exec D.State Value
  force_next_tick queue =
      call (record { text = "select pgque.force_next_tick(%s)"; params = str queue ∷ [] })

  -- The deprecated alias.
  unfoldable pub force_tick : String → Exec D.State Value
  force_tick queue = force_next_tick queue

  unfoldable pub ticker : String → Exec D.State Value
  ticker queue = call (record { text = "select pgque.ticker(%s)"; params = str queue ∷ [] })

  unfoldable pub ticker_all : Exec D.State Value
  ticker_all = call (record { text = "select pgque.ticker()"; params = [] })

  unfoldable pub subscribe_subconsumer : String → String → String → Exec D.State Value
  subscribe_subconsumer queue consumer subconsumer = call (record {
    text = "select pgque.subscribe_subconsumer(%s, %s, %s)";
    params = str queue ∷ str consumer ∷ str subconsumer ∷ [];
  })

  unfoldable pub unsubscribe_subconsumer : String → String → String → ℕ → Exec D.State Value
  unsubscribe_subconsumer queue consumer subconsumer batch_handling = call (record {
    text = "select pgque.unsubscribe_subconsumer(%s, %s, %s, %s)";
    params = str queue ∷ str consumer ∷ str subconsumer ∷ nat batch_handling ∷ [];
  })

  unfoldable pub receive_coop :
      String → String → String → ℕ → Option String → Exec D.State (List Message)
  receive_coop queue consumer subconsumer max_messages dead_interval = do
    rows ←
        run (receive_coop_query queue consumer subconsumer max_messages dead_interval)
          (some "receive_coop") (some max_messages)
    lift (messages_of_rows rows)

  unfoldable pub touch_subconsumer : String → String → String → Exec D.State Value
  touch_subconsumer queue consumer subconsumer = call (record {
    text = "select pgque.touch_subconsumer(%s, %s, %s)";
    params = str queue ∷ str consumer ∷ str subconsumer ∷ [];
  })

  unfoldable pub nack : Value → Message → ℕ → Option String → Exec D.State Unit
  nack batch_id msg retry_after reason = do
    q ← lift (nack_request batch_id msg retry_after reason)
    run q none none
    pure tt
