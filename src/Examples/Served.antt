-- ===== src/Examples/Served.antt =====
-- What a run at the server computes with: a test that unfolds `served` unfolds all of it.
use pg_que.Base.Selections.{select, insert_by, order_by}
use pg_que.Server.BatchSql.{
  insert_desc, sort_desc, older, split_older, in_range, in_list, batch_event_sql,
}
use pg_que.Server.BatchSql.Partition.{batches}
use pg_que.Server.Tables.{named, holder, tick_of, next_tick}
use pg_que.Server.Batches
use pg_que.Server.Nack
use pg_que.Server.Events
use pg_que.Server.Ticks
use pg_que.Server.Registration
use pg_que.Server.Queues
use pg_que.Server.Steps.{perform}
use pg_que.Server.Retries
use pg_que.Examples.Serving
use pg_que.Examples.Opened.{opened}

unfoldable pub served : Unit {0}
unfolding opened select insert_by order_by insert_desc sort_desc older split_older in_range in_list
    batch_event_sql batches named holder tick_of next_tick Batches.open_batch Batches.next_batch_of
    Batches.next_batch Batches.rows_of Batches.batch_rows Batches.get_batch_events
    Batches.finish_batch Batches.yield_messages Batches.receive_batch Batches.receive Batches.ack
    Nack.insert_retries Nack.retry_rows Nack.event_retry Nack.dead_consumer Nack.event_dead
    Nack.max_retries Nack.settle Nack.limit_of Nack.nack Ticks.ticks_of Ticks.newest
    Ticks.is_too_soon Ticks.new_tick Ticks.tick_after Ticks.ticker Ticks.push_events
    Ticks.force_tick Queues.insert_queue Queues.create_queue Registration.consumer_of
    Registration.register_row Registration.register Registration.reposition
    Registration.register_consumer_at perform Events.insert_event_raw Events.insert_event
    Retries.queue_of Retries.due Retries.return_one Retries.return_all Retries.maint_retry_events
    Serving.receive_arguments Serving.ack_arguments Serving.other_arguments Serving.nack_arguments
    Serving.call_receive Serving.call_ack Serving.call_nack Serving.statement Serving.execute
    Serving.commit Serving.rollback
served = opened
