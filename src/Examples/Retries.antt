-- ===== src/Examples/Retries.antt =====
-- A run of `maint_retry_events` at the server of Examples/Servers.antt.
use pg_que.Base.{ℕ, ◌≡◌, refl, none, some, [], ◌∷◌}
use pg_que.Exec.{ok}
use pg_que.Server.Tables.{Db, Retry}
use pg_que.Server.Retries.{maint_retry_events}
use pg_que.Examples.Servers.{db}
use pg_que.Examples.Served.{served}

-- A row of the retry queue, for a time.
abbrev retry : ℕ → ℕ → Retry
retry id after = record {
  ev_retry_after = after;
  ev_queue = 1;
  ev_id = id;
  ev_time = 0;
  ev_owner = 1;
  ev_retry = 2;
  ev_type = some "bad";
  ev_data = some "{}";
  ev_extra1 = none;
  ev_extra2 = none;
  ev_extra3 = none;
  ev_extra4 = none;
}

-- Of the two rows, the second is due at the time 1000.
abbrev before : Db
before = record db { retry_queue = retry 3 1060 ∷ retry 2 940 ∷ [] }

-- One row is moved.
one_is_moved : (maint_retry_events before).0 ≡ ok 1
unfolding served
one_is_moved = refl
