-- ===== src/Server/BatchSql/Older.antt =====
-- The loop over the older transactions in `batch_event_sql`: each is in the range or in the list.
use pg_que.Base.{
  ℕ, ◌+◌, ◌≤◌, ◌<◌, ◌≡◌, ◌∙◌, ap, inl, inr, refl, Bool, true, false, List, [], ◌∷◌, ◌++◌, ◌&&◌,
  ◌||◌, not, leb, ◌==◌, equal, leb→le, All, Bool-cases, arith,
}
use pg_que.Base.Selections.{select}
use pg_que.Server.Snapshots.{Snapshot, mem}
use pg_que.Server.BatchSql.{insert_desc, sort_desc, older, split_older}

-- The numbers fall, from at most `b` on.
abbrev pub Falling : ℕ → List ℕ → Type 0
Falling b [] = Unit
Falling b (x ∷ xs) = (x ≤ b) × Falling x xs

swap_or : (a b c : Bool) → (a || (b || c)) ≡ (b || (a || c))
swap_or a b c = ground arith

mem-insert_desc : (t x : ℕ) (xs : List ℕ) → mem t (insert_desc x xs) ≡ (t == x || mem t xs)
unfolding insert_desc
mem-insert_desc t x [] = refl
mem-insert_desc t x (y ∷ ys) = elim (Bool-cases (leb y x)) [
  | inl here ↦ rw here refl
  | inr later ↦ rw (later, mem-insert_desc t x ys) (swap_or (t == y) (t == x) (mem t ys))
]

mem-sort_desc : (t : ℕ) (xs : List ℕ) → mem t (sort_desc xs) ≡ mem t xs
unfolding sort_desc
mem-sort_desc t [] = refl
mem-sort_desc t (x ∷ xs) = rw (mem-insert_desc t x (sort_desc xs), mem-sort_desc t xs) refl

not_leb : (a b : ℕ) → leb a b ≡ false → b ≤ a
not_leb a b h = ground arith

insert_desc-Falling : (b x : ℕ) (xs : List ℕ) → x ≤ b → Falling b xs → Falling b (insert_desc x xs)
unfolding insert_desc
insert_desc-Falling b x [] h k = (h, tt)
insert_desc-Falling b x (y ∷ ys) h (k, ks) = elim (Bool-cases (leb y x)) [
  | inl here ↦ rw here (h, (leb→le y x here, ks))
  | inr later ↦ rw later (k, insert_desc-Falling y x ys (not_leb y x later) ks)
]

pub sort_desc-Falling : (b : ℕ) (xs : List ℕ) → All (λ x. x ≤ b) xs → Falling b (sort_desc xs)
unfolding sort_desc
sort_desc-Falling b [] h = tt
sort_desc-Falling b (x ∷ xs) (h, hs) =
    insert_desc-Falling b x (sort_desc xs) h (sort_desc-Falling b xs hs)

-- What the loop over the older transactions comes to.
pub record IsSplit (start : ℕ) (ids : List ℕ) (r : ℕ × List ℕ) : Type 0 where
  pub lowered : r.0 ≤ start
  pub listed : (t : ℕ) → mem t r.1 ≡ true → (mem t ids ≡ true) × (t < r.0)
  pub found : (t : ℕ) → mem t ids ≡ true → (leb r.0 t || mem t r.1) ≡ true

append_last : (arr : List ℕ) (x : ℕ) (xs : List ℕ) → (arr ++ x ∷ []) ++ xs ≡ arr ++ x ∷ xs
append_last [] x xs = refl
append_last (y ∷ ys) x xs = ap (λ zs. y ∷ zs) (append_last ys x xs)

append_nil : (xs : List ℕ) → xs ≡ xs ++ []
append_nil [] = refl
append_nil (x ∷ xs) = ap (λ ys. x ∷ ys) (append_nil xs)

too_far : (start id b : ℕ) → id ≤ b → b + 100 < start → leb start (id + 100) ≡ false
too_far start id b h k = ground arith

-- Past the first transaction that is too far off, all are listed.
all_far :
    (start b : ℕ) (arr ids : List ℕ)
    → b + 100 < start
    → Falling b ids
    → split_older start arr ids ≡ (start, arr ++ ids)
unfolding split_older
all_far start b arr [] far h = ap (λ xs. (start, xs)) (append_nil arr)
all_far start b arr (id ∷ ids) far (h, hs) = rw (too_far start id b h far) (
    all_far start id (arr ++ id ∷ []) ids (omega arith) hs
    ∙ ap (λ xs. (start, xs)) (append_last arr id ids))

mem-Falling : (t b : ℕ) (xs : List ℕ) → Falling b xs → mem t xs ≡ true → t ≤ b
mem-Falling t b [] h k = absurd (cc)
mem-Falling t b (x ∷ xs) (h, hs) k = elim (Bool-cases (t == x)) [
  | inl same ↦ grind (arith, equal t x same)
  | inr other ↦
      let rest : mem t xs ≡ true = rw (← drop_false (t == x) (mem t xs) other) k in
      grind (arith, mem-Falling t x xs hs rest)
]
  where
    drop_false : (a c : Bool) → a ≡ false → (a || c) ≡ c
    drop_false a c e = ground arith

or_true : (a c : Bool) → c ≡ true → (a || c) ≡ true
or_true a c e = ground arith

far_off : (start id : ℕ) → leb start (id + 100) ≡ false → id + 100 < start
far_off start id h = ground arith

first_listed :
    (start id t : ℕ) (m : Bool) → (t == id || m) ≡ true → start ≤ id → m ≡ false → start ≤ t
first_listed start id t m h k e = ground (arith)

pub split_older-IsSplit :
    (start : ℕ) (ids : List ℕ) → Falling start ids → IsSplit start ids (split_older start [] ids)
unfolding split_older
split_older-IsSplit start [] h = record {
  lowered = omega arith;
  listed = λ t k. absurd (cc);
  found = λ t k. absurd (cc);
}
split_older-IsSplit start (id ∷ ids) (h, hs) = elim (Bool-cases (leb start (id + 100))) [
  | inl near ↦ rw near (
      let r = split_older-IsSplit id ids hs in
      let (s', arr) = split_older id [] ids in
      record {
        lowered = omega (arith, r.lowered);
        listed = λ t k. (or_true (t == id) (mem t ids) (r.listed t k).0, (r.listed t k).1);
        found = λ t k. found_near s' id t (mem t ids) (mem t arr) r.lowered (r.found t) k;
      })
  | inr far ↦
      rw (far, all_far start id (id ∷ []) ids (far_off start id far) hs)
        (record {
          lowered = omega arith;
          listed = λ t k.
              (k, omega (arith, far_off start id far, mem-Falling t id (id ∷ ids) (self id, hs) k));
          found = λ t k. or_true (leb start t) (mem t (id ∷ ids)) k;
        })
]
  where
    self : (n : ℕ) → n ≤ n
    self n = omega arith

    found_near :
        (s' id t : ℕ) (m a : Bool)
        → s' ≤ id
        → (m ≡ true → (leb s' t || a) ≡ true)
        → (t == id || m) ≡ true
        → (leb s' t || a) ≡ true
    found_near s' id t true a h k e = k refl
    found_near s' id t false a h k e = ground arith

pub mem-All : (P : ℕ → Type 0) (t : ℕ) (xs : List ℕ) → All P xs → mem t xs ≡ true → P t
mem-All P t [] h k = absurd (cc)
mem-All P t (x ∷ xs) (h, hs) k = elim (Bool-cases (t == x)) [
  | inl same ↦ rw (equal t x same) h
  | inr other ↦ mem-All P t xs hs (rw (← drop_false (t == x) (mem t xs) other) k)
]
  where
    drop_false : (a c : Bool) → a ≡ false → (a || c) ≡ c
    drop_false a c e = ground arith

mem-select : (p : ℕ → Bool) (t : ℕ) (xs : List ℕ) → mem t (select p xs) ≡ (mem t xs && p t)
unfolding select
mem-select p t [] = refl
mem-select p t (x ∷ xs) = elim (Bool-cases (t == x)) [
  | inl same ↦ elim (Bool-cases (p x)) [
    | inl yes_it_is ↦ rw (yes_it_is, same, ap p (equal t x same) ∙ yes_it_is) refl
    | inr no_it_is_not ↦
        rw (no_it_is_not, mem-select p t xs, ap p (equal t x same) ∙ no_it_is_not)
          (both_false (mem t xs) (t == x))
  ]
  | inr other ↦ elim (Bool-cases (p x)) [
    | inl yes_it_is ↦ rw (yes_it_is, other) (mem-select p t xs)
    | inr no_it_is_not ↦ rw (no_it_is_not, other) (mem-select p t xs)
  ]
]
  where
    both_false : (a b : Bool) → (a && false) ≡ ((b || a) && false)
    both_false a b = ground arith

pub mem-older :
    (t : ℕ) (last cur : Snapshot) → mem t (older last cur) ≡ (mem t last.xip && not (mem t cur.xip))
unfolding older
mem-older t last cur =
    mem-sort_desc t (select (λ id1. not (mem id1 cur.xip)) last.xip)
    ∙ mem-select (λ id1. not (mem id1 cur.xip)) t last.xip
