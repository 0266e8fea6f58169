-- ===== src/Types.antt =====
-- clients/python/pgque/types.py. The dataclass `Event` is a constructor of `Value`.
use pg_que.Base.{List, [], ◌∷◌}
use pg_que.Value.{Value}
use pg_que.Errors.{index_error}
use pg_que.Exec.{Result, ok, err}

pub record Message : Type 0 where
  pub msg_id : Value
  pub batch_id : Value
  pub type : Value
  pub payload : Value
  pub retry_count : Value
  pub created_at : Value
  pub extra1 : Value
  pub extra2 : Value
  pub extra3 : Value
  pub extra4 : Value

-- `Message(msg_id=r[0], …, extra4=r[9])`
unfoldable pub message_of_row : List Value → Result Message
message_of_row (r0 ∷ r1 ∷ r2 ∷ r3 ∷ r4 ∷ r5 ∷ r6 ∷ r7 ∷ r8 ∷ r9 ∷ rest) = ok (record {
  msg_id = r0;
  batch_id = r1;
  type = r2;
  payload = r3;
  retry_count = r4;
  created_at = r5;
  extra1 = r6;
  extra2 = r7;
  extra3 = r8;
  extra4 = r9;
})
message_of_row _ = err index_error

-- The list comprehension over the rows of a batch.
unfoldable pub messages_of_rows : List (List Value) → Result (List Message)
messages_of_rows [] = ok []
messages_of_rows (r ∷ rows) = elim (message_of_row r) [
  | err e ↦ err e
  | ok m ↦ elim (messages_of_rows rows) [ err e ↦ err e | ok ms ↦ ok (m ∷ ms) ]
]
