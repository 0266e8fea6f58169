-- ===== src/Driver.antt =====
-- psycopg and the server behind it, which are not of this repository: a state that the session's
-- calls change, and the calls that the client makes. Nothing is assumed of them here.
pub mod Assumptions
use pg_que.Base.{String, Bool, List}
use pg_que.Value.{Value}
use pg_que.Exec.{Exec}

-- The two arguments of `conn.execute`.
pub record Query : Type 0 where
  pub text : String
  pub params : List Value

pub record Driver : Type 1 where
  pub State : Type 0
  -- `conn.execute(text, params).fetchall()`
  pub execute : Query → Exec State (List (List Value))
  -- `psycopg.connect(dsn, autocommit=...)`
  pub connect : String → Bool → Exec State Unit
  -- `conn.closed`, `conn.close()`
  pub closed : State → Bool
  pub close : State → State
  -- What `with conn.transaction()` does at its start, at its end, and when the block raises;
  -- psycopg logs and ignores an error of the last.
  pub begin : Exec State Unit
  pub commit : Exec State Unit
  pub rollback : State → State
