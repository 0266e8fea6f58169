-- ===== src/Server/Retries/Returned.antt =====
-- The rounds of `maint_retry_events` of sql/pgque.sql, one and several.
use mathlib.Core.Path.{subst}
use pg_que.Base.{
  ℕ, ◌+◌, equal, ◌≡◌, ◌⊎◌, refl, sym, ap, ◌∙◌, Bool, true, false, some, List, [], ◌∷◌, ◌&&◌, ◌||◌,
  not, str_eq, ◌==◌, length, All, Bool-cases, inl, inr, if◌then◌else◌, arith,
}
use pg_que.Base.Selections.{select}
use pg_que.Exec.{Result, ok, follow, follow_ok}
use pg_que.Server.BatchSql.{Event}
use pg_que.Server.Tables.{Db, Queue, Retry, find, exists, is_nat, put}
use pg_que.Server.Batches.{raise_exception}
use pg_que.Server.Nack.{is_retry}
use pg_que.Server.Events.{event_row, numbered, inserted, insert_event_raw}
use pg_que.Server.Retries.{returned_event, queue_of, remove, return_one, return_all}

-- The event of a row of the retry queue, by its number, its owner and how often it was retried.
abbrev pub is_event_of : Retry → Event → Bool
is_event_of r ev =
    ev.ev_id == r.ev_id && (is_nat ev.ev_owner r.ev_owner && is_nat ev.ev_retry r.ev_retry)

-- A row is in the retry queue, or its event is in its queue.
abbrev pub IsKept : Retry → Db → Type 0
IsKept r db =
    (exists (is_retry r.ev_owner r.ev_id) db.retry_queue ≡ true)
    ⊎ (exists (is_event_of r) (db.events r.ev_queue) ≡ true)

-- The name of a queue is its own.
abbrev pub HasOwnNames : Db → Type 0
HasOwnNames db =
    (id : ℕ) (q : Queue)
    → find (λ q. q.queue_id == id) db.queues ≡ some q
    → (find (λ x. str_eq x.queue_name q.queue_name) db.queues ≡ some q) × (q.queue_id ≡ id)

-- The outcome of a round: the row is in its queue, and only rows with its key have left.
record Moves (r : Retry) (db db' : Db) : Type 0 where
  pub same_queues : db'.queues ≡ db.queues
  pub removed : db'.retry_queue ≡ select (λ x. not (is_retry r.ev_owner r.ev_id x)) db.retry_queue
  pub moved : exists (is_event_of r) (db'.events r.ev_queue) ≡ true
  pub stay :
      (p : Event → Bool) (id : ℕ) → exists p (db.events id) ≡ true → exists p (db'.events id) ≡ true

same : (n : ℕ) → (n == n) ≡ true
same n = ground arith

is_own : (xid : ℕ) (r : Retry) → is_event_of r (event_row xid r.ev_id (returned_event r)) ≡ true
is_own xid r = rw (same r.ev_id, same r.ev_owner, same r.ev_retry) refl

or_true : (a b : Bool) → b ≡ true → (a || b) ≡ true
or_true a b e = ground arith

exists-put :
    (p : Event → Bool) (queue : ℕ) (ev : Event) (events : ℕ → List Event) (id : ℕ)
    → exists p (events id) ≡ true
    → exists p (put queue (ev ∷ events queue) events id) ≡ true
exists-put p queue ev events id h = elim (Bool-cases (id == queue)) [
  | inl here ↦ rw here (
      or_true (p ev) (exists p (events queue))
        (subst (λ x. exists p (events x) ≡ true) (equal id queue here) h))
  | inr other ↦ rw other h
]

inserted_there :
    (r : Retry) (xid queue : ℕ) (events : ℕ → List Event)
    → queue ≡ r.ev_queue
    → exists
        (is_event_of r)
        (put queue (event_row xid r.ev_id (returned_event r) ∷ events queue) events r.ev_queue)
      ≡ true
inserted_there r xid queue events e = rw (e) (rw (same r.ev_queue) (rw (is_own xid r) refl))

-- The tables after a round.
abbrev pub returned : Retry → Queue → Db → Db
returned r q db =
    remove r (inserted q (event_row db.xid r.ev_id (returned_event r)) (numbered q db))

module _ (r : Retry) (db : Db) (names : HasOwnNames db) where
  returned-Moves : (q : Queue) → q.queue_id ≡ r.ev_queue → Moves r db (returned r q db)
  returned-Moves q e = record {
    same_queues = refl;
    removed = refl;
    moved = inserted_there r db.xid q.queue_id db.events e;
    stay = λ p id h.
        exists-put p q.queue_id (event_row db.xid r.ev_id (returned_event r)) db.events id h;
  }

  return_one-returned :
      (q : Queue) (db' : Db)
      → queue_of db r ≡ some q
      → find (λ x. str_eq x.queue_name q.queue_name) db.queues ≡ some q
      → return_one r db ≡ (ok tt, db')
      → returned r q db ≡ db'
  unfolding return_one insert_event_raw
  return_one-returned q db' there by_name h =
      by_allowed (q.queue_disable_insert && not db.is_replica)
        (rw (by_name, insert_event_raw) at (rw (there, return_one) at h))
    where
      by_allowed :
          (b : Bool)
          → (let (x, d) =
                if b then raise_exception "Insert into queue disallowed" (numbered q db) else (
                  ok r.ev_id,
                  inserted q (event_row db.xid r.ev_id (returned_event r)) (numbered q db),
                ) in
              follow {B = Unit {0}} (λ n db. (ok tt, remove r db)) x d ≡ (ok tt, db'))
          → returned r q db ≡ db'
      by_allowed true k = absurd (cc)
      by_allowed false k = ap (λ (x : Result (Unit {0}) × Db). x.1) k

  return_one-Moves :
      (q : Queue) (db' : Db)
      → queue_of db r ≡ some q
      → return_one r db ≡ (ok tt, db')
      → Moves r db db'
  unfolding queue_of
  return_one-Moves q db' there h =
      let (by_name, e) = names r.ev_queue q there in
      subst (Moves r db) (return_one-returned q db' there by_name h) (returned-Moves q e)

-- Rows with another key stay.
other_key :
    (r d x : Retry)
    → is_retry r.ev_owner r.ev_id d ≡ false
    → is_retry r.ev_owner r.ev_id x ≡ true
    → not (is_retry d.ev_owner d.ev_id x) ≡ true
other_key r d x h k = ground arith

exists-select :
    (p g : Retry → Bool) (xs : List Retry)
    → ((x : Retry) → p x ≡ true → g x ≡ true)
    → exists p xs ≡ true
    → exists p (select g xs) ≡ true
unfolding select
exists-select p g [] h k = k
exists-select p g (x ∷ xs) h k = elim (Bool-cases (p x)) [
  | inl hit ↦ rw (h x hit) (rw hit refl)
  | inr miss ↦
      let rest = exists-select p g xs h (rw miss at k) in
      elim (Bool-cases (g x)) [
        | inl stays ↦ rw stays (or_true (p x) (exists p (select g xs)) rest)
        | inr goes ↦ rw goes rest
      ]
]

Moves-IsKept :
    (r d : Retry) (db db' : Db)
    → Moves d db db'
    → (is_retry r.ev_owner r.ev_id d ≡ true → d ≡ r)
    → IsKept r db
    → IsKept r db'
Moves-IsKept r d db db' m own (inr there) = inr (m.stay (is_event_of r) r.ev_queue there)
Moves-IsKept r d db db' m own (inl waits) = elim (Bool-cases (is_retry r.ev_owner r.ev_id d)) [
  | inl its_own ↦
      inr (subst (λ x. exists (is_event_of x) (db'.events x.ev_queue) ≡ true) (own its_own) m.moved)
  | inr other ↦ inl (
      rw m.removed (
        exists-select (is_retry r.ev_owner r.ev_id) (λ x. not (is_retry d.ev_owner d.ev_id x))
          db.retry_queue (λ x h. other_key r d x other h) waits))
]

-- The rows of the loop have queues, and only the row itself has the key of `r`.
abbrev pub HaveQueues : Db → List Retry → Type 0
HaveQueues db rs = All (λ d. (q : Queue) × (queue_of db d ≡ some q)) rs

abbrev pub HasOwnKey : Retry → List Retry → Type 0
HasOwnKey r rs = All (λ d. is_retry r.ev_owner r.ev_id d ≡ true → d ≡ r) rs

pub same_queue_of :
    (db db' : Db) (d : Retry) → db'.queues ≡ db.queues → queue_of db' d ≡ queue_of db d
unfolding queue_of
same_queue_of db db' d e = ap (λ qs. find (λ (q : Queue). q.queue_id == d.ev_queue) qs) e

pub HaveQueues-moved :
    (db db' : Db) (rs : List Retry) → db'.queues ≡ db.queues → HaveQueues db rs → HaveQueues db' rs
HaveQueues-moved db db' [] e h = tt
HaveQueues-moved db db' (d ∷ rs) e ((q, h), hs) =
    ((q, same_queue_of db db' d e ∙ h), HaveQueues-moved db db' rs e hs)

HasOwnNames-moved : (db db' : Db) → db'.queues ≡ db.queues → HasOwnNames db → HasOwnNames db'
HasOwnNames-moved db db' e h id q there =
    let (name, own) =
      h id q (sym (ap (λ qs. find (λ (q : Queue). q.queue_id == id) qs) e) ∙ there) in
    (ap (λ qs. find (λ (x : Queue). str_eq x.queue_name q.queue_name) qs) e ∙ name, own)

-- What the loop comes to, when it returns.
pub record Returns (cnt n : ℕ) (rs : List Retry) (db db' : Db) : Type 0 where
  pub count : n ≡ cnt + length rs
  pub moved : All (λ d. exists (is_event_of d) (db'.events d.ev_queue) ≡ true) rs
  pub stay :
      (p : Event → Bool) (id : ℕ) → exists p (db.events id) ≡ true → exists p (db'.events id) ≡ true
  pub kept : (r : Retry) → HasOwnKey r rs → IsKept r db → IsKept r db'

pub return_all-Returns :
    (cnt n : ℕ) (rs : List Retry) (db db' : Db)
    → HasOwnNames db
    → HaveQueues db rs
    → return_all cnt rs db ≡ (ok n, db')
    → Returns cnt n rs db db'
unfolding return_all
return_all-Returns cnt n [] db db' names queues h =
    let e : db ≡ db' = ap (λ (x : Result ℕ × Db). x.1) h in
    let c : cnt ≡ n = ok_same (ap (λ (x : Result ℕ × Db). x.0) h) in
    record {
      count = omega (arith, c);
      moved = tt;
      stay = λ p id k. subst (λ (d : Db). exists p (d.events id) ≡ true) e k;
      kept = λ r own k. subst (IsKept r) e k;
    }
  where
    ok_same : {a b : ℕ} → Path (Result ℕ) (ok a) (ok b) → a ≡ b
    ok_same x = cc
return_all-Returns cnt n (r ∷ rs) db db' names ((q, there), queues) h =
    let (x, d) = return_one r db in
    let (u, done, rest) = follow_ok (λ u. return_all (cnt + 1) rs) x d n db' h in
    let m = return_one-Moves r db names q d there (λ i. (done i, d)) in
    let later =
      return_all-Returns (cnt + 1) n rs d db' (HasOwnNames-moved db d m.same_queues names)
        (HaveQueues-moved db d rs m.same_queues queues) rest in
    record {
      count = omega (arith, later.count);
      moved = (later.stay (is_event_of r) r.ev_queue m.moved, later.moved);
      stay = λ p id k. later.stay p id (m.stay p id k);
      kept = λ r0 (own, owns) k. later.kept r0 owns (Moves-IsKept r0 r db d m own k);
    }
