-- ===== src/Examples/Opened.antt =====
-- What a run of a poll computes with: a test that unfolds `opened` unfolds all of it.
use pg_que.Base.Texts.{show}
use pg_que.Value.{is_container, is_hashable}
use pg_que.Value.Json.{dumps}
use pg_que.Errors.{is_exception}
use pg_que.Errors.Wrap.{primary_of, hint_of, overflow_text, is_overflow, classify, wrap_sql_error}
use pg_que.Base.Texts.{lower, lower_code, starts, contains}
use pg_que.Types.{message_of_row, messages_of_rows}
use pg_que.Client
use pg_que.Client.Requests.{encode_container, nack_request}
use pg_que.Consumer
use pg_que.Consumer.Plan.{judge, plan, nack_all}
use pg_que.Examples.Toy.{toy_execute, toy_commit}

unfoldable pub opened : Unit {0}
unfolding show is_container is_hashable dumps is_exception primary_of hint_of overflow_text
    is_overflow classify wrap_sql_error lower lower_code starts contains message_of_row
    messages_of_rows encode_container nack_request Client.rewrap Client.first_column Client.run
    Client.call Client.receive Client.receive_coop Client.ack Client.nack Consumer.get
    Consumer.handler_for Consumer.transaction Consumer.end_transaction Consumer.try_nack
    Consumer.dispatch_one Consumer.dispatch Consumer.receive_batch Consumer.finish Consumer.process
    Consumer.poll_block Consumer.poll_once judge plan nack_all toy_execute toy_commit
opened = tt
