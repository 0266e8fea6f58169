-- ===== src/Examples/Batches.antt =====
-- Batches and nacks at the server of Examples/Servers.antt.
use mathlib.Core.List.{Permᴰ}
use pg_que.Base.{ℕ, String, ◌≡◌, refl, true, Option, none, some, arith}
use pg_que.Base.Selections.{select, Ordered}
use pg_que.Exec.{ok}
use pg_que.Server.Snapshots.{IsSnapshot, visible}
use pg_que.Server.BatchSql.{Event, batch_event_sql}
use pg_que.Server.BatchSql.Selected.{between, batch_event_sql-Permᴰ}
use pg_que.Server.Tables.{Db, Subscription}
use pg_que.Server.Nack.{nack, max_retries}
use pg_que.Server.Nack.Traced.{Found}
use pg_que.Server.Nack.Parked.{IsParked, HasOwnId, drawn_up_to, nack-IsParked}
use pg_que.Server.Nack.Limits.{IsWithin, nack-IsWithin}
use pg_que.Examples.Servers.{
  event, earlier, later, events, subscription, opened_db, batch, batch_is_own,
}
use pg_que.Examples.Served.{served}

pub earlier_is_snapshot : IsSnapshot earlier
earlier_is_snapshot = record {
  bounds = omega arith;
  running = ((omega arith, omega arith), tt);
  documented = λ txid. ground arith;
}

pub later_is_snapshot : IsSnapshot later
later_is_snapshot = record { bounds = omega arith; running = tt; documented = λ txid. ground arith }

pub seen_stays : (txid : ℕ) → visible earlier txid ≡ true → visible later txid ≡ true
seen_stays txid h = ground arith

batch_event_sql-Permᴰ_example :
    Permᴰ (batch_event_sql 1 earlier later events) (select (between 1 earlier later) events)
    × Ordered (λ (ev : Event). ev.ev_id) 0 (batch_event_sql 1 earlier later events)
batch_event_sql-Permᴰ_example =
    batch_event_sql-Permᴰ earlier later earlier_is_snapshot later_is_snapshot (omega arith) 1 events

abbrev held_subscription : Subscription
held_subscription = record subscription {
  sub_batch = some 5;
  sub_next_tick = some 2;
  sub_active = 1000;
}

event_is_found : Found opened_db 5 3
unfolding served
event_is_found = record {
  sub = held_subscription;
  limit = 5;
  events = batch;
  event = event 3 7 "bad";
  held = refl;
  limited = refl;
  rows = refl;
  among = refl;
}

has_own_id : HasOwnId opened_db 5 3
has_own_id evs rows = batch_is_own evs rows 3

nack-IsParked_example :
    (db' : Db) × (nack 5 3 60 none opened_db ≡ (ok 1, db'))
    × IsParked db' event_is_found.sub 3
    × ((n after' : ℕ) (reason' : Option String)
        → (m : ℕ) × (nack 5 3 after' reason' (drawn_up_to n db') ≡ (ok 1, drawn_up_to m db')))
nack-IsParked_example = nack-IsParked opened_db 5 3 has_own_id event_is_found 60 none

limit_is_five : max_retries opened_db 1 ≡ some 5
unfolding served
limit_is_five = refl

none_waits : IsWithin 1 5 opened_db.retry_queue
unfolding served
none_waits = tt

nack-IsWithin_example : IsWithin 1 5 (nack 5 3 60 none opened_db).1.retry_queue
nack-IsWithin_example = nack-IsWithin opened_db 1 5 limit_is_five 5 3 60 none none_waits
