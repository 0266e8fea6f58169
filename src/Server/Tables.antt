-- ===== src/Server/Tables.antt =====
-- The tables of sql/pgque.sql that the consumers' functions read and change, and the look-ups in
-- them. The data tables of a queue are one list of rows here.
pub mod Updates
use pg_que.Base.{
  ℕ, ◌+◌, String, Bool, true, false, Option, none, some, List, [], ◌∷◌, ◌&&◌, ◌||◌, str_eq, ◌==◌,
  ltb, if◌then◌else◌,
}
use pg_que.Base.Selections.{select, order_by}
use pg_que.Server.Snapshots.{Snapshot}
use pg_que.Server.BatchSql.{Event}

-- `pgque.consumer`
pub record Registered : Type 0 where
  pub co_id : ℕ
  pub co_name : String

-- `pgque.queue`
pub record Queue : Type 0 where
  pub queue_id : ℕ
  pub queue_name : String
  pub queue_max_retries : Option ℕ
  pub queue_disable_insert : Bool
  pub queue_external_ticker : Bool
  pub queue_ticker_paused : Bool
  pub queue_ticker_max_count : ℕ
  pub queue_ticker_max_lag : ℕ
  pub queue_ticker_idle_period : ℕ

-- `pgque.tick`
pub record Tick : Type 0 where
  pub tick_queue : ℕ
  pub tick_id : ℕ
  pub tick_time : ℕ
  pub tick_snapshot : Snapshot
  pub tick_event_seq : ℕ

-- A sequence of PostgreSQL, with its columns `last_value` and `is_called`.
pub record Sequence : Type 0 where
  pub last_value : ℕ
  pub is_called : Bool

-- `nextval` gives this, and leaves the sequence as `drawn` does.
abbrev pub next_value : Sequence → ℕ
next_value s = if s.is_called then s.last_value + 1 else s.last_value

abbrev pub drawn_to : ℕ → Sequence
drawn_to n = record { last_value = n; is_called = true }

abbrev pub drawn : Sequence → Sequence
drawn s = drawn_to (next_value s)

-- A value for each queue, changed for one.
abbrev pub put {ℓ} : {A : Type ℓ} → ℕ → A → (ℕ → A) → ℕ → A
put queue a f id = if id == queue then a else f id

pub data Role : Type 0 where
  normal : Role
  coop_main : Role
  coop_member : Role

abbrev pub is_member : Role → Bool
is_member coop_member = true
is_member _ = false

abbrev pub is_main : Role → Bool
is_main coop_main = true
is_main _ = false

abbrev pub is_normal : Role → Bool
is_normal normal = true
is_normal _ = false

-- `pgque.subscription`
pub record Subscription : Type 0 where
  pub sub_id : ℕ
  pub sub_queue : ℕ
  pub sub_consumer : ℕ
  pub sub_role : Role
  pub sub_last_tick : Option ℕ
  pub sub_active : ℕ
  pub sub_batch : Option ℕ
  pub sub_next_tick : Option ℕ

-- `pgque.retry_queue`, without `ev_txid`, which is null
pub record Retry : Type 0 where
  pub ev_retry_after : ℕ
  pub ev_queue : ℕ
  pub ev_id : ℕ
  pub ev_time : ℕ
  pub ev_owner : ℕ
  pub ev_retry : ℕ
  pub ev_type : Option String
  pub ev_data : Option String
  pub ev_extra1 : Option String
  pub ev_extra2 : Option String
  pub ev_extra3 : Option String
  pub ev_extra4 : Option String

-- `pgque.dead_letter`, with the event's columns in `dl_event`
pub record DeadLetter : Type 0 where
  pub dl_id : ℕ
  pub dl_queue_id : ℕ
  pub dl_consumer_id : ℕ
  pub dl_time : ℕ
  pub dl_reason : String
  pub dl_event : Event

-- By a queue's id, `events` gives the rows of its data tables, and `event_seq` and `tick_seq` its
-- two sequences. Of the transaction, `now`, `xid` and `snapshot` are its time, its number and its
-- snapshot, `notified` the channels and payloads of its notifications; `is_replica` is a setting of
-- the session. The other sequences count the numbers that were drawn.
pub record Db : Type 0 where
  pub queues : List Queue
  pub consumers : List Registered
  pub ticks : List Tick
  pub subscriptions : List Subscription
  pub events : ℕ → List Event
  pub retry_queue : List Retry
  pub dead_letter : List DeadLetter
  pub event_seq : ℕ → Sequence
  pub tick_seq : ℕ → Sequence
  pub queue_id_seq : ℕ
  pub batch_id_seq : ℕ
  pub sub_id_seq : ℕ
  pub co_id_seq : ℕ
  pub dl_id_seq : ℕ
  pub now : ℕ
  pub xid : ℕ
  pub snapshot : Snapshot
  pub notified : List (String × String)
  pub is_replica : Bool

module _ {ℓ} {A : Type ℓ} where
  -- `select ... into` of a query that has at most one row, or one whose first row is taken
  abbrev pub find : (A → Bool) → List A → Option A
  find p [] = none
  find p (x ∷ xs) = let rest = find p xs in if p x then some x else rest

  -- `exists (select ...)`
  abbrev pub exists : (A → Bool) → List A → Bool
  exists p [] = false
  exists p (x ∷ xs) = p x || exists p xs

  -- `update ... set ... where p`
  abbrev pub update : (A → Bool) → (A → A) → List A → List A
  update p f [] = []
  update p f (x ∷ xs) = let rest = update p f xs in if p x then f x ∷ rest else x ∷ rest

  abbrev pub first : List A → Option A
  first [] = none
  first (x ∷ xs) = some x

-- `column = n`, which is not true of a null
abbrev pub is_nat : Option ℕ → ℕ → Bool
is_nat none n = false
is_nat (some m) n = m == n

-- The subscription of a consumer to a queue, by their names.
abbrev pub is_named : Db → String → String → Subscription → Bool
is_named db queue consumer s =
    exists (λ q. q.queue_id == s.sub_queue && str_eq q.queue_name queue) db.queues
    && exists (λ c. c.co_id == s.sub_consumer && str_eq c.co_name consumer) db.consumers

unfoldable pub named : Db → String → String → Option Subscription
named db queue consumer = find (is_named db queue consumer) db.subscriptions

-- `where sub_batch = batch_id`
abbrev pub has_batch : ℕ → Subscription → Bool
has_batch batch_id s = is_nat s.sub_batch batch_id

unfoldable pub holder : Db → ℕ → Option Subscription
holder db batch_id = find (has_batch batch_id) db.subscriptions

-- `where sub_queue = ... and sub_consumer = ...`, the primary key
abbrev pub same_key : Subscription → Subscription → Bool
same_key s t = t.sub_queue == s.sub_queue && t.sub_consumer == s.sub_consumer

unfoldable pub tick_of : Db → ℕ → Option ℕ → Option Tick
tick_of db queue none = none
tick_of db queue (some id) = find (λ t. t.tick_queue == queue && t.tick_id == id) db.ticks

-- `tick_id > prev_tick_id and tick_queue = queue_id order by tick_id limit 1`
unfoldable pub next_tick : Db → ℕ → ℕ → Option Tick
next_tick db queue prev =
    first (
      order_by (λ t. t.tick_id)
        (select (λ t. ltb prev t.tick_id && t.tick_queue == queue) db.ticks))
