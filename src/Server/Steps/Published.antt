-- ===== src/Server/Steps/Published.antt =====
-- A published event of sql/pgque.sql, on its way to the consumers.
use mathlib.Core.Path.{subst}
use mathlib.Core.List.Permᴰ
use mathlib.Core.List.{Mem, mem-cons_self, mem-cons_of_mem}
use pg_que.Base.{
  ℕ, ◌≡◌, refl, sym, ap, ◌∙◌, String, Bool, true, false, Option, none, some, List, ◌∷◌, ◌&&◌, not,
  Bool-cases, inl, inr, if◌then◌else◌,
}
use pg_que.Base.Selections.{select}
use pg_que.Exec.{Result, ok}
use pg_que.Server.Snapshots.{Snapshot, visible}
use pg_que.Server.BatchSql.{Event}
use pg_que.Server.BatchSql.Selected.{between}
use pg_que.Server.BatchSql.Partition.{last_of, batches}
use pg_que.Server.Tables.{Db, Queue, Tick, tick_of, next_value}
use pg_que.Server.Tables.Updates.{put_self}
use pg_que.Server.Batches.{raise_exception}
use pg_que.Server.Events.{NewEvent, event_row, numbered, inserted, insert_event_raw, insert_event}
use pg_que.Server.Ticks.{queue_named}
use pg_que.Server.Steps.{Reach}
use pg_que.Server.Steps.Valid.{IsValid, Added, same, more}
use pg_que.Server.Steps.Ticked.{insert_event_raw-IsValid}
use pg_que.Server.Steps.Reached.{restarted-IsValid, Reach-IsValid}
use pg_que.Server.Steps.Settled.{AreTicksOf, snapshots, ticks-batches-Permᴰ}

-- An event that was there first is selected, whatever has been added.
Mem-select :
    (p : Event → Bool) (s : Snapshot) (ev : Event) (old new : List Event)
    → p ev ≡ true
    → Added s (ev ∷ old) new
    → Mem ev (select p new)
unfolding select
Mem-select p s ev old new h same = rw h mem-cons_self
Mem-select p s ev old new h (more {ev = x} {events} unseen rest) = elim (Bool-cases (p x)) [
  | inl hit ↦ rw hit (mem-cons_of_mem x (Mem-select p s ev old events h rest))
  | inr miss ↦ rw miss (Mem-select p s ev old events h rest)
]

-- What `insert_event_raw` has done, when it returns for a new event.
module _ (queue : String) (e : NewEvent) (db db' : Db) (id : ℕ) (q : Queue) where
  inserted_event :
      e.ev_id ≡ none
      → queue_named db queue ≡ some q
      → insert_event_raw queue e db ≡ (ok id, db')
      → db'.events q.queue_id ≡ event_row db.xid id e ∷ db.events q.queue_id
  unfolding insert_event_raw
  inserted_event new there h =
      by_allowed (q.queue_disable_insert && not db.is_replica)
        (rw new at (rw (there, insert_event_raw) at h))
    where
      same_number : {a b : ℕ} → Path (Result ℕ) (ok a) (ok b) → a ≡ b
      same_number h = cc

      by_allowed :
          (b : Bool)
          → (if b then raise_exception "Insert into queue disallowed" (numbered q db) else (
            ok (next_value (db.event_seq q.queue_id)),
            inserted q (event_row db.xid (next_value (db.event_seq q.queue_id)) e) (numbered q db),
          ))
            ≡ (ok id, db')
          → db'.events q.queue_id ≡ event_row db.xid id e ∷ db.events q.queue_id
      by_allowed true k = absurd (cc)
      by_allowed false k =
          sym (ap (λ (x : Result ℕ × Db). x.1.events q.queue_id) k)
          ∙ put_self q.queue_id _ db.events
          ∙ ap (λ n. event_row db.xid n e ∷ db.events q.queue_id)
              (same_number (ap (λ (x : Result ℕ × Db). x.0) k))

-- The event that `insert_event` publishes at a time.
abbrev pub new_event :
    ℕ
    → Option String
    → Option String
    → Option String
    → Option String
    → Option String
    → Option String
    → NewEvent
new_event now ev_type ev_data ev_extra1 ev_extra2 ev_extra3 ev_extra4 = record {
  ev_id = none;
  ev_time = now;
  ev_owner = none;
  ev_retry = none;
  ev_type = ev_type;
  ev_data = ev_data;
  ev_extra1 = ev_extra1;
  ev_extra2 = ev_extra2;
  ev_extra3 = ev_extra3;
  ev_extra4 = ev_extra4;
}

module _ (db : Db) (v : IsValid db db) (queue : String) (q : Queue)
    (t d x1 x2 x3 x4 : Option String) (id : ℕ) (db1 db2 : Db) where
  -- If in valid tables `insert_event` returns the number of an event, then in whatever the tables
  -- lead to, and for every subscription, the event is in one of the batches between ticks of the
  -- queue in the order of their numbers, as soon as the last of the ticks sees the transaction that
  -- published it and provided that the first did not: no event that is published is skipped.
  pub published-delivered :
      insert_event queue t d x1 x2 x3 x4 db ≡ (ok id, db1)
      → Reach db1 db2
      → queue_named db queue ≡ some q
      → (sub_id a : ℕ) (first : Tick) (ids : List ℕ) (ts : List Tick)
      → tick_of db2 q.queue_id (some a) ≡ some first
      → AreTicksOf db2 q.queue_id a ids ts
      → visible first.tick_snapshot db.xid ≡ false
      → visible (last_of first.tick_snapshot (snapshots ts)) db.xid ≡ true
      → Mem
          (event_row db.xid id (new_event db.now t d x1 x2 x3 x4))
          (batches sub_id first.tick_snapshot (snapshots ts) (db2.events q.queue_id))
  unfolding insert_event
  published-delivered h r there sub_id a first ids ts is_first are_ticks unseen seen =
      let e = new_event db.now t d x1 x2 x3 x4 in
      let v1 : IsValid db1 db1 = restarted-IsValid db1 (
        subst (IsValid db) (ap (λ (x : Result ℕ × Db). x.1) h)
          (insert_event_raw-IsValid queue db v e)) in
      let w = Reach-IsValid r v1 in
      let rows =
        ticks-batches-Permᴰ db2 (restarted-IsValid db2 w) q.queue_id sub_id a first ids ts is_first
          are_ticks in
      Permᴰ.mem (Permᴰ.symm rows) (
        Mem-select (between sub_id first.tick_snapshot (last_of first.tick_snapshot (snapshots ts)))
          db1.snapshot (event_row db.xid id e) (db.events q.queue_id) (db2.events q.queue_id)
          (rw (seen, unseen) refl)
          (subst (λ old. Added db1.snapshot old (db2.events q.queue_id))
            (inserted_event queue e db db1 id q refl there h) (w.added q.queue_id)))
