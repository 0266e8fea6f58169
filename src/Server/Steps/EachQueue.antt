-- ===== src/Server/Steps/EachQueue.antt =====
-- What the `ticker` of all queues of sql/pgque.sql does to each of them.
use mathlib.Core.Path.{subst}
use pg_que.Base.{
  ℕ, ◌+◌, ◌≤◌, ◌≡◌, refl, sym, ap, ◌∙◌, String, str_eq, eq_iff, Bool, true, false, Option, some,
  List, [], ◌∷◌, ◌==◌, length, All, Bool-cases, inl, inr, arith,
}
use pg_que.Base.Selections.{select}
use pg_que.Exec.{Result, follow}
use pg_que.Server.Tables.{Db, Queue, find}
use pg_que.Server.Tables.Updates.{find_holds, find_only}
use pg_que.Server.Ticks.{ticks_of, queue_named, ticker}
use pg_que.Server.Tickers.{counted, tick_each}
use pg_que.Server.Steps.Valid.{IsValid}
use pg_que.Server.Steps.Ticked.{ticker-IsValid}
use pg_que.Server.Steps.Apart.{Alike, Alike-refl, Alike-trans, ticker-Alike, ticker-ticks}
use pg_que.Server.Steps.Everywhere.{IsServed, Returns, ticker-Returns}

-- The unique keys of `pgque.queue`.
pub record HasOwnQueues (queues : List Queue) : Type 0 where
  pub own_name : (name : String) → length (select (λ q. str_eq q.queue_name name) queues) ≤ 1
  pub own_id : (id : ℕ) → length (select (λ q. q.queue_id == id) queues) ≤ 1

-- No other queue has the id of the queue of a name.
abbrev pub IsApart : Db → String → ℕ → Type 0
IsApart db name id =
    (n : String) (r : Queue)
    → queue_named db n ≡ some r
    → str_eq n name ≡ false
    → (r.queue_id == id) ≡ false

same_text : (s : String) → str_eq s s ≡ true
same_text s = (eq_iff s s).1 refl

same_id : (n : ℕ) → (n == n) ≡ true
same_id n = ground arith

one_of : {o : Option Queue} {a b : Queue} → o ≡ some a → o ≡ some b → a ≡ b
one_of {a} {b} h k = let e : some a ≡ some b = sym h ∙ k in cc

pub named-IsApart :
    (db : Db) (name : String) (q : Queue)
    → HasOwnQueues db.queues
    → queue_named db name ≡ some q
    → IsApart db name q.queue_id
named-IsApart db name q own is_q n r is_r other = elim (Bool-cases (r.queue_id == q.queue_id)) [
  | inr apart ↦ apart
  | inl same ↦
      let by_id : Queue → Bool = λ x. x.queue_id == q.queue_id in
      let e : r ≡ q =
        one_of
          (find_only (λ x. str_eq x.queue_name n) by_id db.queues r is_r same
            (own.own_id q.queue_id))
          (find_only (λ x. str_eq x.queue_name name) by_id db.queues q is_q (same_id q.queue_id)
            (own.own_id q.queue_id)) in
      let r_is : r.queue_name ≡ n =
        (eq_iff r.queue_name n).0 (find_holds (λ x. str_eq x.queue_name n) db.queues r is_r) in
      let q_is : q.queue_name ≡ name =
        (eq_iff q.queue_name name).0
          (find_holds (λ x. str_eq x.queue_name name) db.queues q is_q) in
      absurd (cc (other, (eq_iff n name).1 (sym r_is ∙ ap (λ (x : Queue). x.queue_name) e ∙ q_is)))
]

pub none_left :
    {A : Type 0} (p : A → Bool) (xs : List A) → length (select p xs) ≡ 0 → All (λ x. p x ≡ false) xs
unfolding select
none_left p [] h = tt
none_left p (x ∷ xs) h = elim (Bool-cases (p x)) [
  | inl hit ↦
      let some_there : length (x ∷ select p xs) ≡ 0 = rw (hit, select) at h in
      absurd (omega (arith, some_there))
  | inr miss ↦ (miss, none_left p xs (rw (miss, select) at h))
]

module _ (name : String) where
  abbrev pub times : List String → ℕ
  times ns = length (select (λ n. str_eq n name) ns)

  first_is :
      (n : String) (ns : List String) → str_eq n name ≡ true → times (n ∷ ns) ≡ 1 → 1 + times ns ≡ 1
  unfolding select
  first_is n ns this h =
      let e : length (n ∷ select (λ n. str_eq n name) ns) ≡ 1 = rw this at h in omega (arith, e)

  first_is_not :
      (k : ℕ) (n : String) (ns : List String)
      → str_eq n name ≡ false
      → times (n ∷ ns) ≡ k
      → times ns ≡ k
  unfolding select
  first_is_not k n ns other h = rw other at h

  -- A round of the loop.
  tick_each-step :
      (res : ℕ) (n : String) (ns : List String) (db : Db) (r : Returns db (ticker n db))
      → (tick_each res (n ∷ ns) db).1 ≡ (tick_each (counted res r.id) ns r.after).1
  unfolding tick_each
  tick_each-step res n ns db r =
      ap (λ (x : Result (Option ℕ) × Db). (follow (λ id. tick_each (counted res id) ns) x.0 x.1).1)
        r.is

  -- The loop over other queues.
  pub tick_each-Alike :
      {base : Db} (id res : ℕ) (ns : List String) (db : Db)
      → IsValid base db
      → All (IsServed db.queues) ns
      → IsApart db name id
      → times ns ≡ 0
      → Alike id db (tick_each res ns db).1
  unfolding tick_each
  tick_each-Alike id res [] db v h apart none_there = Alike-refl id db
  tick_each-Alike {base} id res (n ∷ ns) db v (s, ss) apart none_there =
      let r = ticker-Returns db v n s in
      let (other, others) = none_left (λ n. str_eq n name) (n ∷ ns) none_there in
      let step : Alike id db r.after =
        subst (Alike id db) (ap (λ (x : Result (Option ℕ) × Db). x.1) r.is)
          (ticker-Alike id n s.queue db s.there (apart n s.queue s.there other)) in
      let w =
        subst (IsValid base) (ap (λ (x : Result (Option ℕ) × Db). x.1) r.is)
          (ticker-IsValid n db v) in
      subst (Alike id db) (sym (tick_each-step res n ns db r)) (
        Alike-trans id db r.after _ step (
          tick_each-Alike id (counted res r.id) ns r.after w
            (subst (λ qs. All (IsServed qs) ns) (sym r.queues) ss)
            (λ m t is_t.
              apart m t (ap (λ qs. find (λ q. str_eq q.queue_name m) qs) (sym r.queues) ∙ is_t))
            (first_is_not 0 n ns other none_there)))

  -- The loop with the queue among the others.
  pub tick_each-ticks :
      {base : Db} (q : Queue) (res : ℕ) (ns : List String) (db : Db)
      → IsValid base db
      → All (IsServed db.queues) ns
      → queue_named db name ≡ some q
      → IsApart db name q.queue_id
      → times ns ≡ 1
      → ticks_of q.queue_id (tick_each res ns db).1.ticks
        ≡ ticks_of q.queue_id (ticker name db).1.ticks
  unfolding tick_each select
  tick_each-ticks q res [] db v h is_q apart once = absurd (omega (arith, once))
  tick_each-ticks {base} q res (n ∷ ns) db v (s, ss) is_q apart once =
      let r = ticker-Returns db v n s in
      let w =
        subst (IsValid base) (ap (λ (x : Result (Option ℕ) × Db). x.1) r.is)
          (ticker-IsValid n db v) in
      let served = subst (λ qs. All (IsServed qs) ns) (sym r.queues) ss in
      let still_apart : IsApart r.after name q.queue_id = λ m t is_t.
        apart m t (ap (λ qs. find (λ q. str_eq q.queue_name m) qs) (sym r.queues) ∙ is_t) in
      let to_after : (ticker n db).1 ≡ r.after = ap (λ (x : Result (Option ℕ) × Db). x.1) r.is in
      ap (λ (d : Db). ticks_of q.queue_id d.ticks) (tick_each-step res n ns db r)
      ∙ (elim (Bool-cases (str_eq n name)) [
        | inl this ↦
            let no_more : 1 + times ns ≡ 1 = first_is n ns this once in
            let a =
              tick_each-Alike q.queue_id (counted res r.id) ns r.after w served still_apart
                (omega (arith, no_more)) in
            a.ticks
            ∙ ap (λ (d : Db). ticks_of q.queue_id d.ticks) (sym to_after)
            ∙ ap (λ m. ticks_of q.queue_id (ticker m db).1.ticks) ((eq_iff n name).0 this)
        | inr other ↦
            let still_q : queue_named r.after name ≡ some q =
              ap (λ qs. find (λ q. str_eq q.queue_name name) qs) r.queues ∙ is_q in
            tick_each-ticks q (counted res r.id) ns r.after w served still_q still_apart
              (first_is_not 1 n ns other once)
            ∙ ticker-ticks name q db r.after is_q still_q (
                subst (Alike q.queue_id db) to_after
                  (ticker-Alike q.queue_id n s.queue db s.there (apart n s.queue s.there other)))
      ])
