-- ===== src/Server/BatchSql.antt =====
-- `batch_event_sql` of sql/pgque.sql: the query for the events between two ticks. It looks at the
-- transactions from `tx_start` on by a range scan, and at older ones by a list of their numbers.
pub mod Older
pub mod Selected
pub mod Partition
use pg_que.Base.{
  ℕ, ◌+◌, String, Bool, Option, none, some, List, [], ◌∷◌, ◌++◌, ◌&&◌, not, ltb, leb, ◌==◌,
  if◌then◌else◌,
}
use pg_que.Base.Selections.{select, order_by}
use pg_que.Server.Snapshots.{Snapshot, mem, visible}

-- `pgque.event_template`. Of the extra fields none is looked at.
pub record Event : Type 0 where
  pub ev_id : ℕ
  pub ev_time : ℕ
  pub ev_txid : ℕ
  pub ev_owner : Option ℕ
  pub ev_retry : Option ℕ
  pub ev_type : Option String
  pub ev_data : Option String
  pub ev_extra1 : Option String
  pub ev_extra2 : Option String
  pub ev_extra3 : Option String
  pub ev_extra4 : Option String

unfoldable pub insert_desc : ℕ → List ℕ → List ℕ
insert_desc x [] = x ∷ []
insert_desc x (y ∷ ys) = let rest = insert_desc x ys in if leb y x then x ∷ y ∷ ys else y ∷ rest

-- `order by 1 desc`
unfoldable pub sort_desc : List ℕ → List ℕ
sort_desc [] = []
sort_desc (x ∷ xs) = insert_desc x (sort_desc xs)

-- The transactions that were running at the last tick and are not at the current one.
unfoldable pub older : Snapshot → Snapshot → List ℕ
older last cur = sort_desc (select (λ id1. not (mem id1 cur.xip)) last.xip)

-- The loop over the older transactions: `tx_start`, lowered to those within 100 of it, and `arr`.
unfoldable pub split_older : ℕ → List ℕ → List ℕ → ℕ × List ℕ
split_older tx_start arr [] = (tx_start, arr)
split_older tx_start arr (id1 ∷ ids) =
    if leb tx_start (id1 + 100)
    then split_older id1 arr ids
    else split_older tx_start (arr ++ id1 ∷ []) ids

-- `retry_expr`
abbrev pub owned_by : ℕ → Event → Bool
owned_by sub_id ev = elim ev.ev_owner [ none ↦ Bool.true | some owner ↦ owner == sub_id ]

-- The range scan.
unfoldable pub in_range : ℕ → ℕ → Snapshot → Snapshot → ℕ → Event → Bool
in_range sub_id tx_start last cur tx_end ev =
    leb tx_start ev.ev_txid
    && (leb ev.ev_txid tx_end
        && (visible cur ev.ev_txid && (not (visible last ev.ev_txid) && owned_by sub_id ev)))

-- `ev_txid in (...)`; without any `arr` there is no such part, and no row either.
unfoldable pub in_list : ℕ → List ℕ → Event → Bool
in_list sub_id arr ev = mem ev.ev_txid arr && owned_by sub_id ev

-- The rows of the query, on the rows of the queue's tables.
unfoldable pub batch_event_sql : ℕ → Snapshot → Snapshot → List Event → List Event
batch_event_sql sub_id last cur events =
    let (tx_start, arr) = split_older last.xmax [] (older last cur) in
    order_by (λ ev. ev.ev_id)
      (select (in_range sub_id tx_start last cur cur.xmax) events
        ++ select (in_list sub_id arr) events)
