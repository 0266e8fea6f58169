-- ===== src/Errors/Wrap.antt =====
-- `_wrap_sql_error` of clients/python/pgque/client.py.
use Prim.Native.String.{◌++◌ as ◌<>◌}
use pg_que.Base.{ℕ, String, Bool, false, Option, none, some, ◌&&◌, ◌||◌, str_eq, if◌then◌else◌}
use pg_que.Base.Texts.{codes, lower, contains, show}
use pg_que.Errors.{
  DbError, PgqueError, base_error, receive_overflow, queue_not_found, batch_not_found,
  consumer_not_found,
}

-- `getattr(diag, "message_primary", None) or msg`
unfoldable pub primary_of : DbError → String
primary_of e = elim e.diag [
  | none ↦ e.text
  | some d ↦ elim d.message_primary [ none ↦ e.text | some p ↦ if str_eq p "" then e.text else p ]
]

unfoldable pub hint_of : DbError → Option String
hint_of e = elim e.diag [ none ↦ none | some d ↦ d.message_hint ]

-- `pgque.{operation}: batch exceeds max_return of {configured_limit}`
unfoldable pub overflow_text : String → ℕ → String
overflow_text operation limit =
    ("pgque." <> operation) <> (": batch exceeds max_return of " <> show limit)

abbrev pub is_receive : String → Bool
is_receive operation = str_eq operation "receive" || str_eq operation "receive_coop"

abbrev pub has_sqlstate : Option String → String → Bool
has_sqlstate none code = false
has_sqlstate (some s) code = str_eq s code

-- The test of the first `if`. The parts that a `None` among the arguments fails come first.
unfoldable pub is_overflow : DbError → String → ℕ → Bool
is_overflow e operation limit =
    has_sqlstate e.sqlstate "54000"
    && (is_receive operation && str_eq (primary_of e) (overflow_text operation limit))

-- The rest of the function: the class is found by phrases in the lowered text.
unfoldable pub classify : String → PgqueError
classify msg =
    let low = lower (codes msg) in
    if contains (codes "queue not found") low
    then queue_not_found msg
    else if contains (codes "consumer not registered") low
        || (contains (codes "consumer not found") low
            || contains (codes "not subscriber to queue") low)
    then consumer_not_found msg
    else if contains (codes "batch not found") low
        || contains (codes "cannot find data for batch") low
    then batch_not_found msg
    else base_error msg

-- `operation` and `configured_limit` are given together, by `receive` and `receive_coop` alone.
unfoldable pub wrap_sql_error : DbError → Option String → Option ℕ → PgqueError
wrap_sql_error e none limit = classify e.text
wrap_sql_error e (some operation) none = classify e.text
wrap_sql_error e (some operation) (some limit) =
    if is_overflow e operation limit
    then receive_overflow (record {
      message = e.text;
      sqlstate = "54000";
      hint = hint_of e;
      configured_limit = limit;
      operation = operation;
    })
    else classify e.text
