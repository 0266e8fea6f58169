-- ===== src/Driver/Assumptions.antt =====
-- What the proofs assume of psycopg and the server, each named where it is used.
use pg_que.Base.{◌≡◌, String, Bool, true, some}
use pg_que.Errors.{DbError, Exn, database, is_exception}
use pg_que.Exec.{ok, err}
use pg_que.Driver.{Driver, Query}

-- No interrupt arrives while a statement is running.
pub record IsCalm (D : Driver) : Type 0 where
  pub raises :
      (q : Query) (s : D.State) (e : Exn) → (D.execute q s).0 ≡ err e → is_exception e ≡ true

-- Transactions. `committed` is what other sessions see; a transaction is open, or has failed, and
-- then the server rejects everything up to its end, where it undoes the transaction.
pub record IsTransactional (D : Driver) : Type 1 where
  pub Data : Type 0
  pub committed : D.State → Data
  pub is_open : D.State → Bool
  pub is_failed : D.State → Bool
  pub begin_committed : (s : D.State) → committed (D.begin s).1 ≡ committed s
  pub begin_open : (s : D.State) → (D.begin s).0 ≡ ok tt → is_open (D.begin s).1 ≡ true
  pub execute_open : (q : Query) (s : D.State) → is_open s ≡ true → is_open (D.execute q s).1 ≡ true
  -- A statement of an open transaction changes nothing that other sessions see.
  pub execute_committed :
      (q : Query) (s : D.State) → is_open s ≡ true → committed (D.execute q s).1 ≡ committed s
  -- An error that the server reports, with its SQLSTATE, fails the transaction.
  pub execute_failed :
      (q : Query) (s : D.State) (e : DbError) (state : String)
      → is_open s ≡ true
      → (D.execute q s).0 ≡ err (database e)
      → e.sqlstate ≡ some state
      → is_failed (D.execute q s).1 ≡ true
  pub failed_stays :
      (q : Query) (s : D.State) → is_failed s ≡ true → is_failed (D.execute q s).1 ≡ true
  -- COMMIT of a failed transaction undoes it.
  pub failed_commit : (s : D.State) → is_failed s ≡ true → committed (D.commit s).1 ≡ committed s
  pub rollback_committed : (s : D.State) → is_open s ≡ true → committed (D.rollback s) ≡ committed s
