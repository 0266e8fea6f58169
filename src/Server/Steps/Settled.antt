-- ===== src/Server/Steps/Settled.antt =====
-- The batches of sql/pgque.sql over time.
use mathlib.Core.List.Permᴰ
use mathlib.Core.List.{Permᴰ}
use mathlib.Core.Path.{subst}
use pg_que.Base.{ℕ, ◌≤◌, ◌≡◌, refl, Bool, true, false, some, List, [], ◌∷◌, arith}
use pg_que.Base.Selections.{select}
use pg_que.Server.Snapshots.{Snapshot, IsSnapshot}
use pg_que.Server.BatchSql.{Event, batch_event_sql}
use pg_que.Server.BatchSql.Selected.{between, batch_event_sql-Permᴰ}
use pg_que.Server.BatchSql.Partition.{IsLater, AreTicks, last_of, batches, batches-Permᴰ}
use pg_que.Server.Tables.{Db, Tick, tick_of}
use pg_que.Server.Steps.{Reach}
use pg_que.Server.Steps.Valid.{IsValid, Added, same, more}
use pg_que.Server.Steps.Ordered.{tick-IsSnapshot, ticks-IsLater}
use pg_que.Server.Steps.Reached.{Reach-IsValid}

-- What is added is in no batch that ends before.
select-Added :
    (sub_id : ℕ) (last cur s : Snapshot) (old new : List Event)
    → IsLater cur s
    → Added s old new
    → select (between sub_id last cur) new ≡ select (between sub_id last cur) old
unfolding select
select-Added sub_id last cur s old new later same = refl
select-Added sub_id last cur s old new later (more {ev} {events} unseen rest) =
    rw (not_yet (later.stays ev.ev_txid) unseen)
      (select-Added sub_id last cur s old events later rest)
  where
    not_yet : {a b : Bool} → (a ≡ true → b ≡ true) → b ≡ false → a ≡ false
    not_yet h k = ground arith

module _ (db db' : Db) (v : IsValid db db) (r : Reach db db') where
  stays :
      (sub_id queue : ℕ) (last cur : Snapshot)
      → IsSnapshot last
      → IsSnapshot cur
      → IsLater last cur
      → IsLater cur db.snapshot
      → Permᴰ
          (batch_event_sql sub_id last cur (db'.events queue))
          (batch_event_sql sub_id last cur (db.events queue))
  stays sub_id queue last cur h k le later =
      let w = Reach-IsValid r v in
      let rows = λ (evs : List Event). (batch_event_sql-Permᴰ last cur h k le.begun sub_id evs).0 in
      Permᴰ.trans
        (subst (Permᴰ (batch_event_sql sub_id last cur (db'.events queue)))
          (select-Added sub_id last cur db.snapshot (db.events queue) (db'.events queue) later
            (w.added queue))
          (rows (db'.events queue)))
        (Permᴰ.symm (rows (db.events queue)))

  -- In whatever valid tables lead to, two ticks of a queue are what they were, and the batch between
  -- them has for each subscription the events that it had: once its last tick is there, no call of
  -- any function and no transaction, not even one that was running, adds an event to a batch or takes
  -- one from it.
  pub batch_stays :
      (sub_id queue a c : ℕ) (last cur : Tick)
      → a ≤ c
      → tick_of db queue (some a) ≡ some last
      → tick_of db queue (some c) ≡ some cur
      → (tick_of db' queue (some a) ≡ some last)
        × (tick_of db' queue (some c) ≡ some cur)
        × Permᴰ
            (batch_event_sql sub_id last.tick_snapshot cur.tick_snapshot (db'.events queue))
            (batch_event_sql sub_id last.tick_snapshot cur.tick_snapshot (db.events queue))
  unfolding tick_of
  batch_stays sub_id queue a c last cur le h k =
      let w = Reach-IsValid r v in
      let d = v.in_order queue in
      let (is_last, last_later, last_low) =
        tick-IsSnapshot _ db.snapshot queue db.ticks d a last h in
      let (is_cur, cur_later, cur_low) = tick-IsSnapshot _ db.snapshot queue db.ticks d c cur k in
      (
        w.old_ticks queue a last h,
        w.old_ticks queue c cur k,
        stays sub_id queue last.tick_snapshot cur.tick_snapshot is_last is_cur
            (ticks-IsLater _ db.snapshot queue db.ticks d a c last cur le h k) cur_later,
      )

-- Ticks of a queue with these numbers, which rise from `a` on.
abbrev pub AreTicksOf : Db → ℕ → ℕ → List ℕ → List Tick → Type 0
AreTicksOf db queue a [] [] = Unit
AreTicksOf db queue a (c ∷ ids) (t ∷ ts) =
    (a ≤ c) × (tick_of db queue (some c) ≡ some t) × AreTicksOf db queue c ids ts
AreTicksOf db queue a _ _ = ⊥

abbrev pub snapshots : List Tick → List Snapshot
snapshots [] = []
snapshots (t ∷ ts) = t.tick_snapshot ∷ snapshots ts

module _ (db : Db) (v : IsValid db db) (queue : ℕ) where
  AreTicksOf-AreTicks :
      (a : ℕ) (t : Tick) (ids : List ℕ) (ts : List Tick)
      → tick_of db queue (some a) ≡ some t
      → AreTicksOf db queue a ids ts
      → AreTicks t.tick_snapshot (snapshots ts)
  unfolding tick_of
  AreTicksOf-AreTicks a t [] [] h k =
      (tick-IsSnapshot _ db.snapshot queue db.ticks (v.in_order queue) a t h).0
  AreTicksOf-AreTicks a t (c ∷ ids) (u ∷ ts) h (le, there, rest) = (
    (tick-IsSnapshot _ db.snapshot queue db.ticks (v.in_order queue) a t h).0,
    ticks-IsLater _ db.snapshot queue db.ticks (v.in_order queue) a c t u le h there,
    AreTicksOf-AreTicks c u ids ts there rest,
  )
  AreTicksOf-AreTicks a t [] (u ∷ ts) h k = absurd k
  AreTicksOf-AreTicks a t (c ∷ ids) [] h k = absurd k

  -- In valid tables, the batches between ticks of a queue in the order of their numbers are
  -- together, each event once, the events that the last of them sees and the first did not.
  pub ticks-batches-Permᴰ :
      (sub_id a : ℕ) (t : Tick) (ids : List ℕ) (ts : List Tick)
      → tick_of db queue (some a) ≡ some t
      → AreTicksOf db queue a ids ts
      → Permᴰ (batches sub_id t.tick_snapshot (snapshots ts) (db.events queue)) (
          select
            (between sub_id t.tick_snapshot (last_of t.tick_snapshot (snapshots ts)))
            (db.events queue))
  ticks-batches-Permᴰ sub_id a t ids ts h k =
      batches-Permᴰ sub_id t.tick_snapshot (snapshots ts) (db.events queue)
        (AreTicksOf-AreTicks a t ids ts h k)
