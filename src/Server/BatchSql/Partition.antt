-- ===== src/Server/BatchSql/Partition.antt =====
-- The batches between the ticks of a queue, one after the other.
use mathlib.Core.List.Permᴰ
use mathlib.Core.List.{Permᴰ}
use pg_que.Base.{ℕ, ◌≤◌, ◌≡◌, refl, Bool, true, false, List, [], ◌∷◌, ◌++◌, ◌&&◌, ◌||◌, not, arith}
use pg_que.Base.Selections.{select, select-Permᴰ}
use pg_que.Server.Snapshots.{Snapshot, IsSnapshot, visible}
use pg_que.Server.BatchSql.{Event, owned_by, batch_event_sql}
use pg_que.Server.BatchSql.Selected.{between, batch_event_sql-Permᴰ}

-- A snapshot taken after another: what has been committed stays so.
pub record IsLater (s t : Snapshot) : Type 0 where
  pub begun : s.xmax ≤ t.xmax
  pub stays : (txid : ℕ) → visible s txid ≡ true → visible t txid ≡ true

-- Snapshots taken one after the other, from `s` on.
abbrev pub AreTicks : Snapshot → List Snapshot → Type 0
AreTicks s [] = IsSnapshot s
AreTicks s (t ∷ ts) = IsSnapshot s × IsLater s t × AreTicks t ts

abbrev pub last_of : Snapshot → List Snapshot → Snapshot
last_of s [] = s
last_of s (t ∷ ts) = last_of t ts

-- The rows of the batches of a subscription, in turn.
unfoldable pub batches : ℕ → Snapshot → List Snapshot → List Event → List Event
batches sub_id s [] events = []
batches sub_id s (t ∷ ts) events = batch_event_sql sub_id s t events ++ batches sub_id t ts events

first : (s : Snapshot) (ts : List Snapshot) → AreTicks s ts → IsSnapshot s
first s [] h = h
first s (t ∷ ts) (h, later, hs) = h

last-stays :
    (s : Snapshot) (ts : List Snapshot)
    → AreTicks s ts
    → (txid : ℕ) → visible s txid ≡ true
    → visible (last_of s ts) txid ≡ true
last-stays s [] h txid v = v
last-stays s (t ∷ ts) (h, later, hs) txid v = last-stays t ts hs txid (later.stays txid v)

none_between :
    (sub_id : ℕ) (s : Snapshot) (events : List Event) → select (between sub_id s s) events ≡ []
unfolding select
none_between sub_id s [] = refl
none_between sub_id s (ev ∷ events) =
    rw (never (visible s ev.ev_txid) (owned_by sub_id ev)) (none_between sub_id s events)
  where
    never : (v o : Bool) → (v && (not v && o)) ≡ false
    never v o = ground arith

-- Over one snapshot and then another, from what the three see.
telescope :
    (a b c o : Bool)
    → (a ≡ true → b ≡ true)
    → (b ≡ true → c ≡ true)
    → (((b && (not a && o)) || (c && (not b && o))) ≡ (c && (not a && o)))
      × (((b && (not a && o)) && (c && (not b && o))) ≡ false)
telescope a b c o h k = ground arith

-- For ticks taken one after the other, the batches of a subscription are, each event once, all the
-- events that the last tick sees and the first did not: no event is left out between two batches or
-- delivered in two of them, whenever its transaction was committed.
pub batches-Permᴰ :
    (sub_id : ℕ) (s : Snapshot) (ts : List Snapshot) (events : List Event)
    → AreTicks s ts
    → Permᴰ (batches sub_id s ts events) (select (between sub_id s (last_of s ts)) events)
unfolding batches
batches-Permᴰ sub_id s [] events h = rw (none_between sub_id s events) Permᴰ.nil
batches-Permᴰ sub_id s (t ∷ ts) events (h, later, hs) =
    let one = (batch_event_sql-Permᴰ s t h (first t ts hs) later.begun sub_id events).0 in
    let rest = batches-Permᴰ sub_id t ts events hs in
    Permᴰ.trans (Permᴰ.append_right _ one) (
      Permᴰ.trans (Permᴰ.append_left _ rest) (
        select-Permᴰ (between sub_id s t) (between sub_id t (last_of t ts))
          (between sub_id s (last_of t ts)) events
          (λ ev.
            telescope (visible s ev.ev_txid) (visible t ev.ev_txid)
              (visible (last_of t ts) ev.ev_txid) (owned_by sub_id ev) (later.stays ev.ev_txid)
              (last-stays t ts hs ev.ev_txid))))
