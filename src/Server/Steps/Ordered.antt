-- ===== src/Server/Steps/Ordered.antt =====
-- The ticks of a queue of sql/pgque.sql by their numbers.
use mathlib.Core.Path.{subst}
use pg_que.Base.{
  ℕ, ◌≤◌, ◌<◌, ◌≡◌, refl, sym, ap, ◌∙◌, Bool, true, false, Option, some, List, [], ◌∷◌, ◌&&◌, ◌==◌,
  Bool-cases, inl, inr, if◌then◌else◌, equal, arith,
}
use pg_que.Base.Selections.{select}
use pg_que.Server.Snapshots.{Snapshot, IsSnapshot}
use pg_que.Server.BatchSql.Partition.{IsLater}
use pg_que.Server.Tables.{Tick, find}
use pg_que.Server.Tables.Updates.{find_holds}
use pg_que.Server.Ticks.{ticks_of}
use pg_que.Server.Steps.Valid.{Descends, is_tick}

abbrev has_id : ℕ → Tick → Bool
has_id id t = t.tick_id == id

find-select :
    (queue id : ℕ) (ts : List Tick)
    → find (is_tick queue id) ts ≡ find (has_id id) (ticks_of queue ts)
unfolding ticks_of select
find-select queue id [] = refl
find-select queue id (t ∷ ts) = elim (Bool-cases (t.tick_queue == queue)) [
  | inl here ↦ rw here (ap (λ r. if has_id id t then some t else r) (find-select queue id ts))
  | inr other ↦ rw other (find-select queue id ts)
]

pub later_same : (s : Snapshot) → IsLater s s
later_same s = record { begun = omega arith; stays = λ txid h. h }

pub later_still : (a b c : Snapshot) → IsLater a b → IsLater b c → IsLater a c
later_still a b c h k = record {
  begun = omega (arith, h.begun, k.begun);
  stays = λ txid seen. k.stays txid (h.stays txid seen);
}

-- A tick that is found has the number, and is before the bound and the snapshot.
record IsBefore (b : ℕ) (s : Snapshot) (t : Tick) : Type 0 where
  pub below : t.tick_id < b
  pub is : IsSnapshot t.tick_snapshot
  pub later : IsLater t.tick_snapshot s

-- The tick that is found at the head, or further on.
module _ (id : ℕ) (x t : Tick) (ts : List Tick) (h : find (has_id id) (x ∷ ts) ≡ some t) where
  at_head : has_id id x ≡ true → x ≡ t
  at_head e = some_same (sym (rw (e, find) refl) ∙ h)
    where
      some_same : {a b : Tick} → Path (Option Tick) (some a) (some b) → a ≡ b
      some_same e = cc

  in_rest : has_id id x ≡ false → find (has_id id) ts ≡ some t
  in_rest e = sym (rw (e, find) refl) ∙ h

found-IsBefore :
    (b id : ℕ) (s : Snapshot) (t : Tick) (ts : List Tick)
    → Descends b s ts
    → find (has_id id) ts ≡ some t
    → IsBefore b s t
found-IsBefore b id s t [] d h = absurd (cc)
found-IsBefore b id s t (x ∷ ts) (below, is, later, rest) h = elim (Bool-cases (has_id id x)) [
  | inl this ↦
      subst (IsBefore b s) (at_head id x t ts h this)
        (record { below = below; is = is; later = later })
  | inr other ↦
      let r = found-IsBefore x.tick_id id x.tick_snapshot t ts rest (in_rest id x t ts h other) in
      record {
        below = omega (arith, r.below, below);
        is = r.is;
        later = later_still t.tick_snapshot x.tick_snapshot s r.later later;
      }
]

found_number : (id : ℕ) (t : Tick) (ts : List Tick) → find (has_id id) ts ≡ some t → t.tick_id ≡ id
found_number id t ts h = equal t.tick_id id (find_holds (has_id id) ts t h)

-- Of two ticks the one with the lower number was taken before.
in_sequence :
    (b a c : ℕ) (s : Snapshot) (last cur : Tick) (ts : List Tick)
    → Descends b s ts
    → a ≤ c
    → find (has_id a) ts ≡ some last
    → find (has_id c) ts ≡ some cur
    → IsLater last.tick_snapshot cur.tick_snapshot
in_sequence b a c s last cur [] d le h k = absurd (cc)
in_sequence b a c s last cur (x ∷ ts) (below, is, later, rest) le h k =
    elim (Bool-cases (has_id c x)) [
      | inl here ↦
          subst (λ (t : Tick). IsLater last.tick_snapshot t.tick_snapshot)
            (at_head c x cur ts k here)
            (elim (Bool-cases (has_id a x)) [
              | inl both ↦
                  subst (λ (t : Tick). IsLater t.tick_snapshot x.tick_snapshot)
                    (at_head a x last ts h both) (later_same x.tick_snapshot)
              | inr older ↦
                  (found-IsBefore x.tick_id a x.tick_snapshot last ts rest
                    (in_rest a x last ts h older)).later
            ])
      | inr further ↦ elim (Bool-cases (has_id a x)) [
        | inl first ↦
            let cur_rest = in_rest c x cur ts k further in
            let low = (found-IsBefore x.tick_id c x.tick_snapshot cur ts rest cur_rest).below in
            absurd (omega (arith, low, le, found_number c cur ts cur_rest, equal x.tick_id a first))
        | inr older ↦
            in_sequence x.tick_id a c x.tick_snapshot last cur ts rest le
              (in_rest a x last ts h older) (in_rest c x cur ts k further)
      ]
    ]

module _ (b : ℕ) (s : Snapshot) (queue : ℕ) (ticks : List Tick)
    (d : Descends b s (ticks_of queue ticks)) where
  pub tick-IsSnapshot :
      (id : ℕ) (t : Tick)
      → find (is_tick queue id) ticks ≡ some t
      → IsSnapshot t.tick_snapshot × IsLater t.tick_snapshot s × (id < b)
  tick-IsSnapshot id t h =
      let k = sym (find-select queue id ticks) ∙ h in
      let r = found-IsBefore b id s t (ticks_of queue ticks) d k in
      (r.is, r.later, omega (arith, r.below, found_number id t (ticks_of queue ticks) k))

  pub ticks-IsLater :
      (a c : ℕ) (last cur : Tick)
      → a ≤ c
      → find (is_tick queue a) ticks ≡ some last
      → find (is_tick queue c) ticks ≡ some cur
      → IsLater last.tick_snapshot cur.tick_snapshot
  ticks-IsLater a c last cur le h k =
      in_sequence b a c s last cur (ticks_of queue ticks) d le (sym (find-select queue a ticks) ∙ h)
        (sym (find-select queue c ticks) ∙ k)

  -- A tick with a higher number hides none.
  pub old_ticks-insert :
      (new : Tick)
      → new.tick_queue ≡ queue
      → b ≤ new.tick_id
      → (q id : ℕ) (t : Tick) → find (is_tick q id) ticks ≡ some t
      → find (is_tick q id) (new ∷ ticks) ≡ some t
  old_ticks-insert new own high q id t h = elim (Bool-cases (is_tick q id new)) [
    | inl hit ↦
        let (one, number) = both (new.tick_queue == q) (new.tick_id == id) hit in
        let to_queue : q ≡ queue = sym (equal new.tick_queue q one) ∙ own in
        let (is, later, low) =
          tick-IsSnapshot id t (ap (λ x. find (is_tick x id) ticks) (sym to_queue) ∙ h) in
        absurd (omega (arith, low, high, equal new.tick_id id number))
    | inr miss ↦ rw miss h
  ]
    where
      both : (a b : Bool) → (a && b) ≡ true → (a ≡ true) × (b ≡ true)
      both a b e = ground arith
