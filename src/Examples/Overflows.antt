-- ===== src/Examples/Overflows.antt =====
-- Receive overflows, from the text of the server to the end of the consumer.
use pg_que.Base.{ℕ, String, ◌≡◌, ◌↔◌, false, some, []}
use pg_que.Errors.{
  DbError, ReceiveOverflow, receive_overflow, reduce, restore_receive_overflow_error,
  restore-reduce,
}
use pg_que.Errors.Wrap.{wrap_sql_error}
use pg_que.Errors.Classes.{OverflowOf, wrap-OverflowOf}
use pg_que.Consumer.{World}
use pg_que.Examples.Toy.{Toy}
use pg_que.Examples.Polls.{server, world}

abbrev refused : String → DbError
refused text = record {
  text = text;
  sqlstate = some "54000";
  diag = some (record { message_primary = some text; message_hint = some "Retry" });
  operational = false;
}

abbrev pub overflow : String → String → ReceiveOverflow
overflow operation text = record {
  message = text;
  sqlstate = "54000";
  hint = some "Retry";
  configured_limit = 2;
  operation = operation;
}

abbrev pub plain : String
plain = "pgque.receive: batch exceeds max_return of 2"

abbrev pub full : String → World Toy ℕ
full text = world (server [] (some (refused text)) false)

wrap-OverflowOf_example :
    (wrap_sql_error (refused plain) (some "receive") (some 2)
      ≡ receive_overflow (overflow "receive" plain))
    ↔ OverflowOf (refused plain) "receive" 2 (overflow "receive" plain)
wrap-OverflowOf_example = wrap-OverflowOf (refused plain) "receive" 2 (overflow "receive" plain)

restore-reduce_example :
    restore_receive_overflow_error (reduce (overflow "receive" plain)) ≡ overflow "receive" plain
restore-reduce_example = restore-reduce (overflow "receive" plain)
