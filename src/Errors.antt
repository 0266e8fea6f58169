-- ===== src/Errors.antt =====
-- clients/python/pgque/errors.py: the exception hierarchy, beside the exceptions of psycopg and of
-- Python that pass through the client; and `_wrap_sql_error` of clients/python/pgque/client.py.
pub mod Wrap
pub mod Classes
use pg_que.Base.{ℕ, String, Bool, true, false, Option, none, some, ◌≡◌, refl}

-- `e.diag` of a psycopg error, as far as the client reads it.
pub record Diag : Type 0 where
  pub message_primary : Option String
  pub message_hint : Option String

-- A `psycopg.Error`; `operational` tells the subclass `psycopg.OperationalError`.
pub record DbError : Type 0 where
  pub text : String
  pub sqlstate : Option String
  pub diag : Option Diag
  pub operational : Bool

pub record ReceiveOverflow : Type 0 where
  pub message : String
  pub sqlstate : String
  pub hint : Option String
  pub configured_limit : ℕ
  pub operation : String

-- `PgqueError` and its subclasses.
pub data PgqueError : Type 0 where
  base_error : String → PgqueError
  receive_overflow : ReceiveOverflow → PgqueError
  connection_error : String → PgqueError
  queue_not_found : String → PgqueError
  batch_not_found : String → PgqueError
  consumer_not_found : String → PgqueError

-- `interrupt` is a `BaseException` that is no `Exception`, such as `KeyboardInterrupt`.
pub data Exn : Type 0 where
  database : DbError → Exn
  pgque : PgqueError → Exn
  type_error : Exn
  index_error : Exn
  value_error : String → Exn
  runtime_error : String → Exn
  assertion_error : Exn
  application : String → Exn
  interrupt : Exn

-- `except Exception` catches it.
unfoldable pub is_exception : Exn → Bool
is_exception interrupt = false
is_exception _ = true

-- `except psycopg.Error` catches it.
unfoldable pub is_database : Exn → Bool
is_database (database e) = true
is_database _ = false

-- `str(e)` of a pgque error.
unfoldable pub message_of : PgqueError → String
message_of (base_error m) = m
message_of (receive_overflow r) = r.message
message_of (connection_error m) = m
message_of (queue_not_found m) = m
message_of (batch_not_found m) = m
message_of (consumer_not_found m) = m

-- `__reduce__`: the arguments that `_restore_receive_overflow_error` is called with. No other
-- attribute is set on such an error, so the `__dict__` beside them holds nothing more.
unfoldable pub reduce : ReceiveOverflow → String × String × Option String × ℕ × String
reduce r = (r.message, r.sqlstate, r.hint, r.configured_limit, r.operation)

unfoldable pub restore_receive_overflow_error :
    String × String × Option String × ℕ × String → ReceiveOverflow
restore_receive_overflow_error (message, sqlstate, hint, configured_limit, operation) = record {
  message = message;
  sqlstate = sqlstate;
  hint = hint;
  configured_limit = configured_limit;
  operation = operation;
}

-- A receive overflow survives pickling.
pub restore-reduce : (r : ReceiveOverflow) → restore_receive_overflow_error (reduce r) ≡ r
unfolding reduce restore_receive_overflow_error
restore-reduce r = refl
