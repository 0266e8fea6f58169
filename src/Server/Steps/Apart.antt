-- ===== src/Server/Steps/Apart.antt =====
-- The tickers of different queues of sql/pgque.sql do not meet.
use pg_que.Base.{
  ℕ, ◌≡◌, refl, sym, ◌∙◌, String, true, false, none, some, List, ◌∷◌, ◌==◌, ltb, Bool-cases,
  Option-cases, inl, inr, if◌then◌else◌, arith,
}
use pg_que.Base.Selections.{select}
use pg_que.Server.Snapshots.{Snapshot}
use pg_que.Server.Tables.{Db, Queue, Tick, Sequence, next_value}
use pg_que.Server.Ticks.{
  ticks_of, newest, newest_before, is_too_soon, queue_named, new_tick, tick_after, ticker,
}

-- For the ticker of a queue, the two states are the same.
pub record Alike (id : ℕ) (db d : Db) : Type 0 where
  pub ticks : ticks_of id d.ticks ≡ ticks_of id db.ticks
  pub events : d.event_seq id ≡ db.event_seq id
  pub numbers : d.tick_seq id ≡ db.tick_seq id
  pub queues : d.queues ≡ db.queues
  pub now : d.now ≡ db.now
  pub xid : d.xid ≡ db.xid
  pub snapshot : d.snapshot ≡ db.snapshot

pub Alike-refl : (id : ℕ) (db : Db) → Alike id db db
Alike-refl id db = record {
  ticks = refl;
  events = refl;
  numbers = refl;
  queues = refl;
  now = refl;
  xid = refl;
  snapshot = refl;
}

pub Alike-trans : (id : ℕ) (a b c : Db) → Alike id a b → Alike id b c → Alike id a c
Alike-trans id a b c h k = record {
  ticks = k.ticks ∙ h.ticks;
  events = k.events ∙ h.events;
  numbers = k.numbers ∙ h.numbers;
  queues = k.queues ∙ h.queues;
  now = k.now ∙ h.now;
  xid = k.xid ∙ h.xid;
  snapshot = k.snapshot ∙ h.snapshot;
}

flip : (a b : ℕ) → (a == b) ≡ false → (b == a) ≡ false
flip a b h = ground arith

new_tick-Alike :
    (id : ℕ) (r : Queue) (db : Db) → (r.queue_id == id) ≡ false → Alike id db (new_tick r db)
unfolding new_tick ticks_of select
new_tick-Alike id r db other = record {
  ticks = rw other refl;
  events = refl;
  numbers = rw (flip r.queue_id id other) refl;
  queues = refl;
  now = refl;
  xid = refl;
  snapshot = refl;
}

-- The ticker of one queue leaves the others as they are.
pub ticker-Alike :
    (id : ℕ) (name : String) (r : Queue) (db : Db)
    → queue_named db name ≡ some r
    → (r.queue_id == id) ≡ false
    → Alike id db (ticker name db).1
unfolding ticker tick_after
ticker-Alike id name r db there other =
    rw (there, ticker) (grind (arith, Alike-refl id db, new_tick-Alike id r db other))

-- The ticks of a queue after its ticker, by what the ticker reads.
abbrev ticked : Queue → List Tick → Sequence → Sequence → ℕ → ℕ → Snapshot → List Tick
ticked q ts events numbers now xid snapshot =
    let t : Tick = record {
      tick_queue = q.queue_id;
      tick_id = next_value numbers;
      tick_time = now;
      tick_snapshot = snapshot;
      tick_event_seq = events.last_value;
    } in
    if q.queue_external_ticker then ts else if q.queue_ticker_paused then ts else elim (newest ts) [
      | none ↦ t ∷ ts
      | some last ↦
          if ltb xid last.tick_snapshot.xmin
          then ts
          else if is_too_soon q last (newest_before last ts) events.last_value now
          then ts
          else t ∷ ts
    ]

same : (n : ℕ) → (n == n) ≡ true
same n = ground arith

module _ (name : String) (q : Queue) (db : Db) where
  new_tick-ticks :
      ticks_of q.queue_id (new_tick q db).ticks
      ≡ record {
        tick_queue = q.queue_id;
        tick_id = next_value (db.tick_seq q.queue_id);
        tick_time = db.now;
        tick_snapshot = db.snapshot;
        tick_event_seq = (db.event_seq q.queue_id).last_value;
      }
        ∷ ticks_of q.queue_id db.ticks
  unfolding new_tick ticks_of select
  new_tick-ticks = rw (same q.queue_id) refl

  ticker-ticked :
      queue_named db name ≡ some q
      → ticks_of q.queue_id (ticker name db).1.ticks
        ≡ ticked q
            (ticks_of q.queue_id db.ticks)
            (db.event_seq q.queue_id)
            (db.tick_seq q.queue_id)
            db.now
            db.xid
            db.snapshot
  unfolding ticker tick_after
  ticker-ticked there =
      rw (there, ticker)
        (elim (Bool-cases q.queue_external_ticker) [
          | inl outside ↦ rw outside refl
          | inr own ↦ rw own (elim (Bool-cases q.queue_ticker_paused) [
            | inl paused ↦ rw paused refl
            | inr awake ↦ rw awake (elim (Option-cases (newest (ticks_of q.queue_id db.ticks))) [
              | inl none_yet ↦ rw none_yet new_tick-ticks
              | inr (last, newest_is) ↦
                  rw newest_is (elim (Bool-cases (ltb db.xid last.tick_snapshot.xmin)) [
                    | inl older ↦ rw older refl
                    | inr fine ↦
                        rw fine
                          (elim (Bool-cases (
                            is_too_soon q last (newest_before last (ticks_of q.queue_id db.ticks))
                              (db.event_seq q.queue_id).last_value db.now)) [
                                | inl soon ↦ rw soon refl
                                | inr late ↦ rw late new_tick-ticks
                              ])
                  ])
            ])
          ])
        ])

-- In states that are the same for a queue, its ticker does the same.
pub ticker-ticks :
    (name : String) (q : Queue) (db d : Db)
    → queue_named db name ≡ some q
    → queue_named d name ≡ some q
    → Alike q.queue_id db d
    → ticks_of q.queue_id (ticker name d).1.ticks ≡ ticks_of q.queue_id (ticker name db).1.ticks
ticker-ticks name q db d there there_too a =
    ticker-ticked name q d there_too
    ∙ (λ i. ticked q (a.ticks i) (a.events i) (a.numbers i) (a.now i) (a.xid i) (a.snapshot i))
    ∙ sym (ticker-ticked name q db there)
