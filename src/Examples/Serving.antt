-- ===== src/Examples/Serving.antt =====
-- A session at a server with the functions of sql/pgque.sql, made up for the examples: a `Driver`
-- that meets the assumptions on psycopg and PostgreSQL.
-- What PostgreSQL does with the types of the arguments is a parameter, and so are the statements
-- that are modelled nowhere here.
pub mod Calm
pub mod Served
use pg_que.Base.{
  ℕ, String, ◌⊎◌, inl, inr, Bool, true, false, Option, none, some, List, [], ◌∷◌, str_eq, leb,
  if◌then◌else◌,
}
use pg_que.Value.{ℤ, Value, null, str, int, nat}
use pg_que.Errors.{DbError, Exn, database}
use pg_que.Exec.{Result, ok, err, Exec, pure, raise, ◌>>=◌, ◌>>◌}
use pg_que.Driver.{Driver, Query}
use pg_que.Client.Requests.{nack_text}
use pg_que.Server.Tables.{Db}
use pg_que.Server.Batches.{exception, receive, ack}
use pg_que.Server.Nack.{nack}

pub record Postgres : Type 0 where
  -- The whole seconds of an `interval`, if the text is one.
  pub interval_seconds : String → Option ℕ
  -- Whether `ROW(...)::pgque.message` takes the arguments.
  pub is_message : List Value → Bool
  -- Any other statement.
  pub other : Query → Db → (DbError ⊎ List (List Value)) × Db

abbrev pub reject : {A : Type 0} → String → String → Exec Db A
reject text sqlstate = raise (exception text sqlstate none)

abbrev pub no_function : {A : Type 0} → Exec Db A
no_function = reject "function does not exist" "42883"

abbrev pub one_row : Value → List (List Value)
one_row v = (v ∷ []) ∷ []

-- A parameter of type `text`.
abbrev pub text_of : Value → Option String
text_of (str t) = some t
text_of v = none

-- The arguments of the three functions, if they are of the types that these declare.
unfoldable pub receive_arguments : List Value → Option (String × String × ℕ)
receive_arguments (str queue ∷ str consumer ∷ int (ℤ.pos n) ∷ []) = some (queue, consumer, n)
receive_arguments _ = none

unfoldable pub ack_arguments : List Value → Option ℕ
ack_arguments (int (ℤ.pos batch_id) ∷ []) = some batch_id
ack_arguments _ = none

-- The other arguments of `nack`: all columns of the message, the delay and the reason.
unfoldable pub other_arguments : ℕ → List Value → Option (List Value × String × Option String)
other_arguments msg_id (v2 ∷ v3 ∷ v4 ∷ v5 ∷ v6 ∷ v7 ∷ v8 ∷ v9 ∷ v10 ∷ str after ∷ reason ∷ []) =
    some (nat msg_id ∷ v2 ∷ v3 ∷ v4 ∷ v5 ∷ v6 ∷ v7 ∷ v8 ∷ v9 ∷ v10 ∷ [], after, text_of reason)
other_arguments msg_id _ = none

unfoldable pub nack_arguments : List Value → Option (ℕ × ℕ × List Value × String × Option String)
nack_arguments (int (ℤ.pos batch_id) ∷ int (ℤ.pos msg_id) ∷ others) =
    elim (other_arguments msg_id others) [
      | none ↦ none
      | some (columns, after, reason) ↦ some (batch_id, msg_id, columns, after, reason)
    ]
nack_arguments _ = none

-- A number past an `int` makes a call of another signature.
unfoldable pub call_receive : List Value → Exec Db (List (List Value))
call_receive ps = elim (receive_arguments ps) [
  | none ↦ no_function
  | some (queue, consumer, n) ↦ if leb n 2147483647 then receive queue consumer n else no_function
]

unfoldable pub call_ack : List Value → Exec Db (List (List Value))
call_ack ps = elim (ack_arguments ps) [
  | none ↦ no_function
  | some batch_id ↦ do n ← ack batch_id; pure (one_row (nat n))
]

unfoldable pub call_nack : Postgres → List Value → Exec Db (List (List Value))
call_nack P ps = elim (nack_arguments ps) [
  | none ↦ no_function
  | some (batch_id, msg_id, columns, after, reason) ↦
      if P.is_message columns
      then elim (P.interval_seconds after) [
        | none ↦ reject "invalid input syntax for type interval" "22007"
        | some seconds ↦ do n ← nack batch_id msg_id seconds reason; pure (one_row (nat n))
      ]
      else reject "invalid input syntax" "22P02"
]

abbrev pub call_other : Postgres → Query → Exec Db (List (List Value))
call_other P q db =
    let (r, db') = P.other q db in (elim r [ inl e ↦ err (database e) | inr rows ↦ ok rows ], db')

-- A statement, by its text.
unfoldable pub statement : Postgres → Query → Exec Db (List (List Value))
statement P q =
    if str_eq q.text "select * from pgque.receive(%s, %s, %s)"
    then call_receive q.params
    else if str_eq q.text "select pgque.ack(%s)"
    then call_ack q.params
    else if str_eq q.text nack_text
    then call_nack P q.params
    else call_other P q

-- `saved` are the tables at the start of the transaction, if one is open, and `failed` says that a statement of it
-- was rejected.
pub record Session : Type 0 where
  pub db : Db
  pub saved : Db
  pub in_block : Bool
  pub failed : Bool
  pub shut : Bool

-- The tables as the transaction found them. A sequence is never set back.
abbrev pub undone : Session → Db
undone s = record s.saved { batch_id_seq = s.db.batch_id_seq }

abbrev pub outcome :
    Session → Result (List (List Value)) × Db → Result (List (List Value)) × Session
outcome s (ok rows, db') = (ok rows, record s { db = db' })
outcome s (err e, db') = (
  err e,
  if s.in_block
      then record s { db = db'; failed = true }
      else record s { db = record s.db { batch_id_seq = db'.batch_id_seq } },
)

abbrev pub in_failed : Exn
in_failed =
    exception "current transaction is aborted, commands ignored until end of transaction block"
      "25P02" none

unfoldable pub execute : Postgres → Query → Exec Session (List (List Value))
execute P q s = if s.failed then raise in_failed s else outcome s (statement P q s.db)

-- COMMIT, which undoes a failed transaction.
unfoldable pub commit : Exec Session Unit
commit s =
    (ok tt, record s { db = if s.failed then undone s else s.db; in_block = false; failed = false })

unfoldable pub rollback : Session → Session
rollback s = record s { db = undone s; in_block = false; failed = false }

abbrev pub server : Postgres → Driver
server P = record {
  State = Session;
  execute = execute P;
  connect = λ dsn autocommit s. (ok tt, s);
  closed = λ s. s.shut;
  close = λ s. record s { shut = true };
  begin = λ s. (ok tt, record s { saved = if s.in_block then s.saved else s.db; in_block = true });
  commit = commit;
  rollback = rollback;
}
