-- ===== src/Server/Steps/Forced.antt =====
-- `force_tick` of sql/pgque.sql, and the `ticker` after it.
use mathlib.Core.Path.{subst}
use pg_que.Base.{
  ℕ, equal, ◌+◌, ◌*◌, ◌≤◌, ◌<◌, ◌≡◌, refl, sym, ap, ◌∙◌, String, false, Option, some, List, [], ◌∷◌,
  ◌==◌, Bool-cases, Option-cases, inl, inr, arith, ltb, All,
}
use pg_que.Exec.{ok}
use pg_que.Server.Snapshots.{Snapshot, IsSnapshot, visible}
use pg_que.Base.Selections.{select}
use pg_que.Server.BatchSql.Partition.{IsLater}
use pg_que.Server.Tables.{Db, Queue, Tick, Sequence, next_value, drawn_to, put}
use pg_que.Server.Tables.Updates.{put_self}
use pg_que.Server.Ticks.{
  ticks_of, newest, is_too_soon, queue_named, new_tick, tick_after, ticker, push_events, force_tick,
  id_of, newest_before,
}
use pg_que.Server.Steps.Valid.{IsValid, Descends}
use pg_que.Server.Steps.Ticked.{newest_first}

-- A queue whose ticks are its own ticker's.
pub record IsTicking (db : Db) (queue_name : String) (q : Queue) : Type 0 where
  pub there : queue_named db queue_name ≡ some q
  pub own : q.queue_external_ticker ≡ false
  pub awake : q.queue_ticker_paused ≡ false

-- Enough new events are never too soon.
enough :
    (q : Queue) (last : Tick) (before : Option Tick) (event_seq now : ℕ)
    → last.tick_event_seq < event_seq
    → last.tick_event_seq + q.queue_ticker_max_count ≤ event_seq
    → is_too_soon q last before event_seq now ≡ false
unfolding is_too_soon
enough q last before event_seq now more many = ground arith

-- The transaction is not older than a snapshot that does not see it.
not_older : (s : Snapshot) (xid : ℕ) → IsSnapshot s → visible s xid ≡ false → ltb xid s.xmin ≡ false
not_older s xid is unseen = elim (Bool-cases (ltb xid s.xmin)) [
  | inl older ↦ absurd (cc (rw older at (is.documented xid), unseen))
  | inr fine ↦ fine
]

-- The ticks of a queue count no more events than its sequence.
counted-ticks_of :
    (es : ℕ → Sequence) (queue : ℕ) (ts : List Tick)
    → All (λ t. t.tick_event_seq ≤ (es t.tick_queue).last_value) ts
    → All (λ t. t.tick_event_seq ≤ (es queue).last_value) (ticks_of queue ts)
unfolding ticks_of select
counted-ticks_of es queue [] h = tt
counted-ticks_of es queue (t ∷ ts) (h, hs) = elim (Bool-cases (t.tick_queue == queue)) [
  | inl here ↦ rw here (
    subst (λ x. t.tick_event_seq ≤ (es x).last_value) (equal t.tick_queue queue here) h,
    counted-ticks_of es queue ts hs,
  )
  | inr other ↦ rw other (counted-ticks_of es queue ts hs)
]

-- What is known of the newest tick.
record IsNewest (es : Sequence) (s : Snapshot) (t : Tick) : Type 0 where
  pub is : IsSnapshot t.tick_snapshot
  pub later : IsLater t.tick_snapshot s
  pub counted : t.tick_event_seq ≤ es.last_value

newest-IsNewest :
    (b : ℕ) (es : Sequence) (s : Snapshot) (ts : List Tick) (t : Tick)
    → Descends b s ts
    → All (λ t. t.tick_event_seq ≤ es.last_value) ts
    → newest ts ≡ some t
    → IsNewest es s t
unfolding newest
newest-IsNewest b es s [] t d c h = absurd (cc)
newest-IsNewest b es s (x ∷ ts) t (below, is, later, rest) (c, cs) h =
    subst (IsNewest es s) (some_same (sym (newest_first b s x ts (below, is, later, rest)) ∙ h))
      (record { is = is; later = later; counted = c })
  where
    some_same : {a b : Tick} → Path (Option Tick) (some a) (some b) → a ≡ b
    some_same e = cc

-- In valid tables the transaction is not older than the newest tick of a queue.
pub newest_not_older :
    {base : Db} (db : Db)
    → IsValid base db
    → (queue : ℕ) (last : Tick) → newest (ticks_of queue db.ticks) ≡ some last
    → ltb db.xid last.tick_snapshot.xmin ≡ false
newest_not_older db v queue last h =
    let n =
      newest-IsNewest _ (db.event_seq queue) db.snapshot (ticks_of queue db.ticks) last
        (v.in_order queue) (counted-ticks_of db.event_seq queue db.ticks v.counted) h in
    not_older last.tick_snapshot db.xid n.is
      (elim (Bool-cases (visible last.tick_snapshot db.xid)) [
        | inl seen ↦ absurd (cc (n.later.stays db.xid seen, v.running))
        | inr not_seen ↦ not_seen
      ])

module _ (queue_name : String) (q : Queue) (db : Db) (v : IsValid db db)
    (t : IsTicking db queue_name q) where
  -- The numbers after `force_tick`.
  abbrev pushed : Sequence
  pushed = drawn_to (next_value (db.event_seq q.queue_id) + (q.queue_ticker_max_count * 2 + 1000))

  force_tick-eq :
      force_tick queue_name db
      ≡ (ok (id_of (newest (ticks_of q.queue_id db.ticks))), push_events q db)
  unfolding force_tick
  force_tick-eq = rw (t.there, force_tick) (rw (t.awake, t.own) refl)

  last-is_old_enough :
      (last : Tick)
      → newest (ticks_of q.queue_id db.ticks) ≡ some last
      → tick_after q last (push_events q db)
        ≡ (ok (some (next_value (db.tick_seq q.queue_id))), new_tick q (push_events q db))
  unfolding tick_after push_events
  last-is_old_enough last h =
      let n =
        newest-IsNewest _ (db.event_seq q.queue_id) db.snapshot (ticks_of q.queue_id db.ticks) last
          (v.in_order q.queue_id) (counted-ticks_of db.event_seq q.queue_id db.ticks v.counted) h in
      let value = ap (λ (s : Sequence). s.last_value) (put_self q.queue_id pushed db.event_seq) in
      let next : (db.event_seq q.queue_id).last_value ≤ next_value (db.event_seq q.queue_id) =
        ground arith in
      rw
        (
          newest_not_older db v q.queue_id last h,
          enough q last (newest_before last (ticks_of q.queue_id db.ticks))
              (put q.queue_id pushed db.event_seq q.queue_id).last_value db.now
              (omega (arith, value, n.counted, next)) (omega (arith, value, n.counted, next)),
        )
        refl

  -- In valid tables, for a queue with a ticker of its own that is not paused, `force_tick` returns
  -- the number of its newest tick, if it has one, and the next call of `ticker` inserts a tick and
  -- returns its number, whatever events there are and however short the time since the last tick.
  pub force_tick_ticks :
      (forced : Db) × (force_tick queue_name db
        ≡ (ok (id_of (newest (ticks_of q.queue_id db.ticks))), forced))
      × (ticker queue_name forced
          ≡ (ok (some (next_value (db.tick_seq q.queue_id))), new_tick q forced))
  unfolding ticker push_events new_tick
  force_tick_ticks = (push_events q db, force_tick-eq, ticked)
    where
      ticked :
          ticker queue_name (push_events q db)
          ≡ (ok (some (next_value (db.tick_seq q.queue_id))), new_tick q (push_events q db))
      ticked =
          rw (t.there, ticker)
            (rw (t.own, t.awake)
              (elim (Option-cases (newest (ticks_of q.queue_id db.ticks))) [
                | inl none_yet ↦ rw none_yet refl
                | inr (last, there) ↦ rw there (last-is_old_enough last there)
              ]))
