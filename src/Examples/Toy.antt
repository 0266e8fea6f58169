-- ===== src/Examples/Toy.antt =====
-- A small server in memory, which meets what the proofs assume of psycopg and PostgreSQL. It
-- delivers one batch, counts the statements that change something, and may reject every nack.
use pg_que.Base.{
  ℕ, ◌+◌, String, ◌≡◌, refl, Bool, true, false, Option, none, some, List, [], ◌∷◌, str_eq,
  if◌then◌else◌, arith,
}
use text.Mathlib.Text.{starts_with}
use pg_que.Value.{Value, nat}
use pg_que.Errors.{DbError, database, is_exception}
use pg_que.Exec.{Result, ok, err}
use pg_que.Driver.{Driver, Query}
use pg_que.Driver.Assumptions.{IsCalm, IsTransactional}
use pg_que.Client.Requests.{nack_text}

pub record Toy : Type 0 where
  pub batch : List (List Value)
  pub refusal : Option DbError
  pub rejects_nacks : Bool
  pub in_block : Bool
  pub aborted : Bool
  pub pending : ℕ
  pub stored : ℕ
  pub shut : Bool

abbrev pub server_error : String → String → DbError
server_error text state = record {
  text = text;
  sqlstate = some state;
  diag = none;
  operational = false;
}

abbrev answer : Option DbError → List (List Value) → Toy → Result (List (List Value)) × Toy
answer none rows s = (ok rows, record s { pending = s.pending + 1 })
answer (some e) rows s = (err (database e), record s { aborted = true })

unfoldable pub toy_execute : Query → Toy → Result (List (List Value)) × Toy
toy_execute q s =
    if s.aborted
    then answer (some (server_error "current transaction is aborted" "25P02")) [] s
    else if str_eq q.text nack_text
    then answer (if s.rejects_nacks then some (server_error "batch not found: 7" "P0001") else none)
        ((nat 1 ∷ []) ∷ []) s
    else if str_eq q.text "select pgque.ack(%s)"
    then answer none ((nat 1 ∷ []) ∷ []) s
    else if starts_with q.text "select * from pgque.receive"
    then answer s.refusal s.batch s
    else answer none [] s

unfoldable pub toy_commit : Toy → Result (Unit {0}) × Toy
toy_commit s = (
  ok tt,
  record s {
    stored = if s.aborted then s.stored else s.pending;
    in_block = false;
    aborted = false;
  },
)

abbrev pub toy : Driver
toy = record {
  State = Toy;
  execute = toy_execute;
  connect = λ dsn autocommit s. (ok tt, s);
  closed = λ s. s.shut;
  close = λ s. record s { shut = true };
  begin = λ s. (ok tt, record s { in_block = true; pending = s.stored });
  commit = toy_commit;
  rollback = λ s. record s { in_block = false; aborted = false };
}

pub toy-IsCalm : IsCalm toy
unfolding toy_execute is_exception
toy-IsCalm = record { raises = λ q s e h. ground arith }

toy_execute_open : (q : Query) (s : Toy) → s.in_block ≡ true → (toy_execute q s).1.in_block ≡ true
unfolding toy_execute
toy_execute_open q s h = ground arith

toy_execute_stored : (q : Query) (s : Toy) → (toy_execute q s).1.stored ≡ s.stored
unfolding toy_execute
toy_execute_stored q s = ground arith

toy_execute_aborted :
    (q : Query) (s : Toy) (e : DbError)
    → (toy_execute q s).0 ≡ err (database e)
    → (toy_execute q s).1.aborted ≡ true
unfolding toy_execute
toy_execute_aborted q s e h = ground arith

toy_stays_aborted : (q : Query) (s : Toy) → s.aborted ≡ true → (toy_execute q s).1.aborted ≡ true
unfolding toy_execute
toy_stays_aborted q s h = ground arith

toy_commit_aborted : (s : Toy) → s.aborted ≡ true → (toy_commit s).1.stored ≡ s.stored
unfolding toy_commit
toy_commit_aborted s h = ground arith

pub toy_transactions : IsTransactional toy
toy_transactions = record {
  Data = ℕ;
  committed = λ s. s.stored;
  is_open = λ s. s.in_block;
  is_failed = λ s. s.aborted;
  begin_committed = λ s. refl;
  begin_open = λ s h. refl;
  execute_open = toy_execute_open;
  execute_committed = λ q s h. toy_execute_stored q s;
  execute_failed = λ q s e state h answered reported. toy_execute_aborted q s e answered;
  failed_stays = toy_stays_aborted;
  failed_commit = toy_commit_aborted;
  rollback_committed = λ s h. refl;
}
