-- ===== src/Server/Serves.antt =====
-- What is assumed of a server with the functions of sql/pgque.sql, as psycopg shows it: PostgreSQL
-- and psycopg are not of this repository.
pub mod Receives
pub mod Settles
use pg_que.Base.{ℕ, String, ◌≡◌, Option, List, ◌∷◌}
use pg_que.Value.{Value, nat}
use pg_que.Exec.{ok}
use pg_que.Driver.{Driver, Query}
use pg_que.Client.Requests.{receive_query, ack_query, nack_text}
use pg_que.Server.Tables.{Db}
use pg_que.Server.Batches.{receive, ack}
use pg_que.Server.Nack.{nack}

-- `tables` are the tables as the transaction sees them, and while no other session changes them.
pub record Serves (D : Driver) : Type 0 where
  pub tables : D.State → Db
  pub begun : (s : D.State) → (D.begin s).0 ≡ ok tt → tables (D.begin s).1 ≡ tables s
  -- A statement that returns rows has run its function.
  pub received :
      (queue consumer : String) (n : ℕ) (rows : List (List Value)) (s s' : D.State)
      → D.execute (receive_query queue consumer n) s ≡ (ok rows, s')
      → receive queue consumer n (tables s) ≡ (ok rows, tables s')
  pub acked :
      (batch_id : ℕ) (rows : List (List Value)) (s s' : D.State)
      → D.execute (ack_query (nat batch_id)) s ≡ (ok rows, s')
      → (n : ℕ) × (ack batch_id (tables s) ≡ (ok n, tables s'))
  -- The delay and the reason are what the casts make of the other arguments.
  pub nacked :
      (batch_id id : ℕ) (others : List Value) (rows : List (List Value)) (s s' : D.State)
      → D.execute (record { text = nack_text; params = nat batch_id ∷ nat id ∷ others }) s
        ≡ (ok rows, s')
      → (seconds : ℕ) × (reason : Option String) × (n : ℕ) × (nack batch_id id seconds reason
            (tables s)
          ≡ (ok n, tables s'))
  -- COMMIT keeps the changes of a transaction whose last statement has not failed.
  pub committed :
      (q : Query) (rows : List (List Value)) (s t t' : D.State)
      → D.execute q s ≡ (ok rows, t)
      → D.commit t ≡ (ok tt, t')
      → tables t' ≡ tables t
