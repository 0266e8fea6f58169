-- ===== src/Examples/Servers.antt =====
-- A server with one queue, and a poll of its consumer there.
use pg_que.Base.{
  ℕ, String, ◌≡◌, refl, sym, ap, ◌∙◌, true, false, Option, none, some, List, [], ◌∷◌, inr, arith,
}
use mathlib.Core.Path.{subst}
use pg_que.Base.Selections.{select}
use pg_que.Exec.{Result, ok}
use pg_que.Consumer.{World, poll_once}
use pg_que.Server.Snapshots.{Snapshot}
use pg_que.Server.BatchSql.{Event}
use pg_que.Server.Tables.{Db, Queue, Tick, Subscription, Role, named}
use pg_que.Server.Batches.{next_batch, batch_rows}
use pg_que.Server.Batches.Held.{IsConsistent}
use pg_que.Examples.Serving.{Postgres, Session, server}
use pg_que.Base.{ltb, ◌==◌, if◌then◌else◌}
use pg_que.Examples.Serving.Calm.{server-IsCalm}
use pg_que.Examples.Serving.Served.{server_serves}
use pg_que.Server.Delivery.Parking.{AreOwnIds}
use pg_que.Server.Delivery.Polls.{IsDelivered, poll_once-IsDelivered}
use pg_que.Examples.Polls.{consumer}
use pg_que.Examples.Served.{served}

abbrev pub event : ℕ → ℕ → String → Event
event id txid type = record {
  ev_id = id;
  ev_time = 0;
  ev_txid = txid;
  ev_owner = none;
  ev_retry = none;
  ev_type = some type;
  ev_data = some "{}";
  ev_extra1 = none;
  ev_extra2 = none;
  ev_extra3 = none;
  ev_extra4 = none;
}

-- Transaction 7 was running at the first tick, and has been committed at the second.
abbrev pub earlier : Snapshot
earlier = record {
  xmin = 7;
  xmax = 9;
  xip = 7 ∷ [];
  sees = λ txid. if ltb txid 7 then true else txid == 8;
}

abbrev pub later : Snapshot
later = record { xmin = 12; xmax = 12; xip = []; sees = λ txid. ltb txid 12 }

abbrev pub latest : Snapshot
latest = record { xmin = 15; xmax = 16; xip = 15 ∷ []; sees = λ txid. ltb txid 15 }

abbrev pub events : List Event
events = event 1 6 "good" ∷ event 2 10 "good" ∷ event 3 7 "bad" ∷ []

abbrev pub subscription : Subscription
subscription = record {
  sub_id = 1;
  sub_queue = 1;
  sub_consumer = 1;
  sub_role = Role.normal;
  sub_last_tick = some 1;
  sub_active = 0;
  sub_batch = none;
  sub_next_tick = none;
}

abbrev pub first_tick : Tick
first_tick = record {
  tick_queue = 1;
  tick_id = 1;
  tick_time = 100;
  tick_snapshot = earlier;
  tick_event_seq = 1;
}

abbrev pub second_tick : Tick
second_tick = record {
  tick_queue = 1;
  tick_id = 2;
  tick_time = 900;
  tick_snapshot = later;
  tick_event_seq = 3;
}

abbrev pub orders : Queue
orders = record {
  queue_id = 1;
  queue_name = "orders";
  queue_max_retries = none;
  queue_disable_insert = false;
  queue_external_ticker = false;
  queue_ticker_paused = false;
  queue_ticker_max_count = 500;
  queue_ticker_max_lag = 3000;
  queue_ticker_idle_period = 60000;
}

abbrev pub db : Db
db = record {
  queues = orders ∷ [];
  consumers = record { co_id = 1; co_name = "worker" } ∷ [];
  ticks = second_tick ∷ first_tick ∷ [];
  subscriptions = subscription ∷ [];
  events = λ queue. events;
  retry_queue = [];
  dead_letter = [];
  event_seq = λ queue. record { last_value = 3; is_called = true };
  tick_seq = λ queue. record { last_value = 2; is_called = true };
  queue_id_seq = 1;
  batch_id_seq = 4;
  sub_id_seq = 1;
  co_id_seq = 1;
  dl_id_seq = 0;
  now = 1000;
  xid = 15;
  snapshot = latest;
  notified = [];
  is_replica = false;
}

abbrev pub postgres : Postgres
postgres = record {
  interval_seconds = λ t. some 60;
  is_message = λ columns. true;
  other = λ q d. (inr [], d);
}

abbrev start : World Session ℕ
start = record {
  db = record { db = db; saved = db; in_block = false; failed = false; shut = false };
  app = 0;
}

-- The batch has events 2 and 3; the handler of the second raises.
polled : (poll_once (server postgres) consumer start).0 ≡ ok true
unfolding served
polled = refl

db-IsConsistent : IsConsistent db
unfolding select
db-IsConsistent = record { drawn = ((λ b h. absurd (cc)), tt); own_batch = λ b. omega arith }

abbrev pub opened_db : Db
opened_db = (next_batch "orders" "worker" db).1

abbrev pub batch : List Event
batch = event 2 10 "good" ∷ event 3 7 "bad" ∷ []

batch_is_five : next_batch "orders" "worker" db ≡ (ok (some 5), opened_db)
unfolding served
batch_is_five = refl

batch_is_read : batch_rows opened_db 5 ≡ some batch
unfolding served
batch_is_read = refl

numbers_differ : AreOwnIds batch
unfolding select
numbers_differ id = ground arith

some_of : {a b : List Event} → Path (Option (List Event)) (some a) (some b) → a ≡ b
some_of e = cc

pub batch_is_own : (evs : List Event) → batch_rows opened_db 5 ≡ some evs → AreOwnIds evs
batch_is_own evs rows = subst AreOwnIds (some_of (sym batch_is_read ∙ rows)) numbers_differ

batch_numbers_differ :
    (batch_id : ℕ) (opened : Db) (evs : List Event)
    → next_batch "orders" "worker" db ≡ (ok (some batch_id), opened)
    → batch_rows opened batch_id ≡ some evs
    → AreOwnIds evs
batch_numbers_differ batch_id opened evs given rows =
    let same : (ok (some 5), opened_db) ≡ (ok (some batch_id), opened) =
      sym batch_is_five ∙ given in
    let five : 5 ≡ batch_id = ok_some (ap (λ (x : Result (Option ℕ) × Db). x.0) same) in
    batch_is_own evs ((λ i. batch_rows (same i).1 (five i)) ∙ rows)
  where
    ok_some : {a b : ℕ} → Path (Result (Option ℕ)) (ok (some a)) (ok (some b)) → a ≡ b
    ok_some e = cc

abbrev polled_world : World Session ℕ
polled_world = (poll_once (server postgres) consumer start).1

poll_returns : poll_once (server postgres) consumer start ≡ (ok true, polled_world)
poll_returns = λ i. (polled i, polled_world)

is_subscribed : named db "orders" "worker" ≡ some subscription
unfolding served
is_subscribed = refl

poll_once-IsDelivered_example :
    IsDelivered (server postgres) (server_serves postgres) consumer start polled_world
poll_once-IsDelivered_example =
    poll_once-IsDelivered (server postgres) (server-IsCalm postgres) (server_serves postgres)
      consumer start polled_world refl db-IsConsistent subscription is_subscribed refl
      batch_numbers_differ poll_returns
