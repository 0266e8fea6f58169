-- ===== src/Client/Lifecycle.antt =====
-- The life of the connection that a `PgqueClient` owns.
use pg_que.Base.{◌≡◌, refl, true, arith}
use pg_que.Exec.{Exec}
use pg_que.Driver.{Driver}
use pg_que.Client.{PgqueClient, close, with_client}

module _ (D : Driver) (closes : (s : D.State) → D.closed (D.close s) ≡ true) {A : Type 0} where
  -- A client that owns its connection has closed it after `with client: body`, whether the body
  -- returns or raises, and passes the outcome of the body on.
  pub with_client_closes :
      (c : PgqueClient) (body : PgqueClient → Exec D.State A) (s : D.State)
      → c.owns_conn ≡ true
      → ((with_client D c body s).0 ≡ (body c s).0) × (D.closed (with_client D c body s).1 ≡ true)
  unfolding with_client close
  with_client_closes c body s owned = let s' = (body c s).1 in (refl, ground (arith, closes s'))
