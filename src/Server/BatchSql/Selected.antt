-- ===== src/Server/BatchSql/Selected.antt =====
-- The query of `batch_event_sql` selects what its simple form does, which the comment on the
-- algorithm in sql/pgque.sql gives.
use mathlib.Core.List.{Permᴰ}
use pg_que.Base.{
  ℕ, ◌≤◌, ◌<◌, ◌≡◌, Bool, true, false, List, [], ◌∷◌, ◌++◌, Bool-cases, inl, inr, ◌&&◌, ◌||◌, not,
  ltb, leb, All, if◌then◌else◌, arith, refl, ◌∙◌, sym,
}
use pg_que.Base.Selections.{select, Splits, select-Permᴰ, order_by-Permᴰ, Ordered, order_by-Ordered}
use pg_que.Server.Snapshots.{Snapshot, IsSnapshot, mem, visible}
use pg_que.Server.BatchSql.{Event, older, split_older, owned_by, in_range, in_list, batch_event_sql}
use pg_que.Server.BatchSql.Older.{
  IsSplit, split_older-IsSplit, sort_desc-Falling, mem-All, mem-older,
}

-- The events that the current tick sees and the last one did not.
abbrev pub between : ℕ → Snapshot → Snapshot → Event → Bool
between sub_id last cur ev =
    visible cur ev.ev_txid && (not (visible last ev.ev_txid) && owned_by sub_id ev)

-- Visibility, from what is known of a transaction.
abbrev sees : ℕ → ℕ → ℕ → Bool → Bool
sees xmin xmax t running = if ltb t xmin then true else if leb xmax t then false else not running

module _ (t lmin lmax cmin cmax start : ℕ) (s0 : start ≤ lmax) (lc : lmax ≤ cmax) where
  Halves : Bool → Bool → Bool → Bool → Type 0
  Halves ml mc a o =
      (((leb start t && (leb t cmax && (sees cmin cmax t mc && (not (sees lmin lmax t ml) && o))))
          || (a && o))
        ≡ (sees cmin cmax t mc && (not (sees lmin lmax t ml) && o)))
      × (((leb start t && (leb t cmax && (sees cmin cmax t mc && (not (sees lmin lmax t ml) && o))))
            && (a && o))
          ≡ false)

  halves :
      (ml mc a o : Bool)
      → cmin ≤ cmax
      → (a ≡ true → (ml && not mc) ≡ true)
      → (a ≡ true → t < start)
      → ((ml && not mc) ≡ true → (leb start t || a) ≡ true)
      → (ml ≡ true → (lmin ≤ t) × (t < lmax))
      → (mc ≡ true → cmin ≤ t)
      → Halves ml mc a o
  unfolding Halves
  halves ml mc a false c h1 h2 h3 h4 h5 = ground arith
  halves true true true true c h1 h2 h3 h4 h5 = absurd (cc (h1 refl))
  halves true false true true c h1 h2 h3 h4 h5 = ground (arith, h2 refl, (h4 refl).0, (h4 refl).1)
  halves false mc true true c h1 h2 h3 h4 h5 = absurd (cc (h1 refl))
  halves true true false true c h1 h2 h3 h4 h5 = ground (arith, (h4 refl).0, (h4 refl).1, h5 refl)
  halves true false false true c h1 h2 h3 h4 h5 = ground (arith, (h4 refl).0, (h4 refl).1, h3 refl)
  halves false true false true c h1 h2 h3 h4 h5 = ground (arith, h5 refl)
  halves false false false true c h1 h2 h3 h4 h5 = ground arith

All-select : (P : ℕ → Type 0) (p : ℕ → Bool) (xs : List ℕ) → All P xs → All P (select p xs)
unfolding select
All-select P p [] h = tt
All-select P p (x ∷ xs) (h, hs) = elim (Bool-cases (p x)) [
  | inl yes_it_is ↦ rw yes_it_is (h, All-select P p xs hs)
  | inr no_it_is_not ↦ rw no_it_is_not (All-select P p xs hs)
]

below_xmax : (lo hi : ℕ) (xs : List ℕ) → All (λ x. (lo ≤ x) × (x < hi)) xs → All (λ x. x ≤ hi) xs
below_xmax lo hi [] h = tt
below_xmax lo hi (x ∷ xs) ((above, below), hs) = (omega arith, below_xmax lo hi xs hs)

module _ (last cur : Snapshot) (l : IsSnapshot last) (c : IsSnapshot cur)
    (later : last.xmax ≤ cur.xmax) where
  older-IsSplit : IsSplit last.xmax (older last cur) (split_older last.xmax [] (older last cur))
  unfolding older
  older-IsSplit = split_older-IsSplit last.xmax (older last cur) (
      sort_desc-Falling last.xmax _ (
        All-select (λ x. x ≤ last.xmax) (λ id1. not (mem id1 cur.xip)) last.xip
          (below_xmax last.xmin last.xmax last.xip l.running)))

  parts-Splits :
      (sub_id : ℕ) (ev : Event)
      → (let (tx_start, arr) = split_older last.xmax [] (older last cur) in
          Splits
            (in_range sub_id tx_start last cur cur.xmax)
            (in_list sub_id arr)
            (between sub_id last cur)
            ev)
  unfolding in_range in_list halves Halves
  parts-Splits sub_id ev =
      let t = ev.ev_txid in
      let s = older-IsSplit in
      let r = split_older last.xmax [] (older last cur) in
      rw (in_range, in_list, l.documented t, c.documented t)
        (halves t last.xmin last.xmax cur.xmin cur.xmax r.0 s.lowered later (mem t last.xip)
          (mem t cur.xip) (mem t r.1) (owned_by sub_id ev) c.bounds
          (λ h. sym (mem-older t last cur) ∙ (s.listed t h).0) (λ h. (s.listed t h).1)
          (λ h. s.found t (mem-older t last cur ∙ h))
          (mem-All (λ x. (last.xmin ≤ x) × (x < last.xmax)) t last.xip l.running)
          (λ h. (mem-All (λ x. (cur.xmin ≤ x) × (x < cur.xmax)) t cur.xip c.running h).0))

  -- For two snapshots, the second taken after the first, the rows of the query are those that the
  -- second sees and the first did not, each as often, in the order of their numbers: the range scan
  -- and the list of older transactions leave nothing out and have nothing in common.
  pub batch_event_sql-Permᴰ :
      (sub_id : ℕ) (events : List Event)
      → Permᴰ (batch_event_sql sub_id last cur events) (select (between sub_id last cur) events)
        × Ordered (λ ev. ev.ev_id) 0 (batch_event_sql sub_id last cur events)
  unfolding batch_event_sql
  batch_event_sql-Permᴰ sub_id events =
      let (tx_start, arr) = split_older last.xmax [] (older last cur) in
      let rows =
        select (in_range sub_id tx_start last cur cur.xmax) events
        ++ select (in_list sub_id arr) events in
      (
        Permᴰ.trans (order_by-Permᴰ (λ (ev : Event). ev.ev_id) rows) (
            select-Permᴰ (in_range sub_id tx_start last cur cur.xmax) (in_list sub_id arr)
              (between sub_id last cur) events (parts-Splits sub_id)),
        order_by-Ordered (λ (ev : Event). ev.ev_id) rows,
      )
