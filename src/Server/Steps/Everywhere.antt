-- ===== src/Server/Steps/Everywhere.antt =====
-- The `ticker` of all queues of sql/pgque.sql in valid tables.
use mathlib.Core.Path.{subst}
use pg_que.Base.{
  ℕ, ◌+◌, ◌≤◌, ◌≡◌, refl, sym, ap, ◌∙◌, String, str_eq, false, Option, none, some, List, [], ◌∷◌,
  length, All, map, Bool-cases, Option-cases, inl, inr, arith,
}
use pg_que.Base.Selections.{select}
use pg_que.Exec.{Result, ok, follow}
use pg_que.Server.Tables.{Db, Queue, find}
use pg_que.Server.Ticks.{ticks_of, newest, newest_before, is_too_soon, new_tick, tick_after, ticker}
use pg_que.Server.Tickers.{has_ticker, counted, tick_each, names, ticker_all}
use pg_que.Server.Steps.Valid.{IsValid}
use pg_que.Server.Steps.Ticked.{ticker-IsValid}
use pg_que.Server.Steps.Retried.{follow-IsValid}
use pg_que.Server.Steps.Forced.{newest_not_older}

-- A queue of the name has a ticker of its own that is not paused.
pub record IsServed (queues : List Queue) (name : String) : Type 0 where
  pub queue : Queue
  pub there : find (λ q. str_eq q.queue_name name) queues ≡ some queue
  pub own : queue.queue_external_ticker ≡ false
  pub awake : queue.queue_ticker_paused ≡ false

-- What `ticker` of a queue gives when it returns, with the queues as they were.
pub record Returns (db : Db) (r : Result (Option ℕ) × Db) : Type 0 where
  pub id : Option ℕ
  pub after : Db
  pub is : r ≡ (ok id, after)
  pub queues : after.queues ≡ db.queues

gives :
    (db : Db) (id : Option ℕ) (after : Db) → after.queues ≡ db.queues → Returns db (ok id, after)
gives db id after e = record { id = id; after = after; is = refl; queues = e }

pub ticker-Returns :
    {base : Db} (db : Db)
    → IsValid base db
    → (name : String) → IsServed db.queues name
    → Returns db (ticker name db)
unfolding ticker tick_after new_tick
ticker-Returns db v name s =
    rw (s.there, ticker)
      (rw (s.own, s.awake)
        (elim (Option-cases (newest (ticks_of s.queue.queue_id db.ticks))) [
          | inl none_yet ↦ rw none_yet (gives db _ _ refl)
          | inr (last, there) ↦ rw there (
              rw (newest_not_older db v s.queue.queue_id last there)
                (elim (Bool-cases (
                  is_too_soon s.queue last (newest_before last (ticks_of s.queue.queue_id db.ticks))
                    (db.event_seq s.queue.queue_id).last_value db.now)) [
                      | inl soon ↦ rw soon (gives db _ _ refl)
                      | inr late ↦ rw late (gives db _ _ refl)
                    ]))
        ]))

counted_once : (res : ℕ) (id : Option ℕ) → counted res id ≤ res + 1
counted_once res none = omega arith
counted_once res (some id) = ground arith

pub tick_each_returns :
    {base : Db} (res : ℕ) (ns : List String) (db : Db)
    → IsValid base db
    → All (IsServed db.queues) ns
    → (n : ℕ) × (db' : Db) × (tick_each res ns db ≡ (ok n, db')) × (n ≤ res + length ns)
unfolding tick_each
tick_each_returns res [] db v h = (res, db, refl, omega arith)
tick_each_returns {base} res (name ∷ ns) db v (s, ss) =
    let r = ticker-Returns db v name s in
    let w =
      subst (IsValid base) (ap (λ (x : Result (Option ℕ) × Db). x.1) r.is)
        (ticker-IsValid name db v) in
    let (n, db', run, few) =
      tick_each_returns (counted res r.id) ns r.after w
        (subst (λ qs. All (IsServed qs) ns) (sym r.queues) ss) in
    (
      n,
      db',
      ap (λ (x : Result (Option ℕ) × Db). follow (λ id. tick_each (counted res id) ns) x.0 x.1) r.is
          ∙ run,
      omega (arith, few, counted_once res r.id),
    )

tick_each-IsValid :
    {base : Db} (res : ℕ) (ns : List String) (db : Db)
    → IsValid base db
    → IsValid base (tick_each res ns db).1
unfolding tick_each
tick_each-IsValid res [] db v = v
tick_each-IsValid res (name ∷ ns) db v =
    let w = ticker-IsValid name db v in
    follow-IsValid _ (ticker name db).0 (ticker name db).1 w
      (λ id. tick_each-IsValid (counted res id) ns (ticker name db).1 w)

pub ticker_all-IsValid :
    {base : Db} (db : Db)
    → IsValid base db
    → (order : List String → List String) → IsValid base (ticker_all order db).1
unfolding ticker_all
ticker_all-IsValid db v order = tick_each-IsValid 0 (order (names db)) db v

-- Each of some queues is found by its name.
abbrev pub AreNamed : List Queue → List Queue → Type 0
AreNamed queues qs = All (λ q. find (λ x. str_eq x.queue_name q.queue_name) queues ≡ some q) qs

pub names-IsServed :
    (queues qs : List Queue)
    → AreNamed queues qs
    → All (IsServed queues) (map (λ q. q.queue_name) (select has_ticker qs))
unfolding select
names-IsServed queues [] h = tt
names-IsServed queues (q ∷ qs) (there, rest) = elim (Bool-cases (has_ticker q)) [
  | inl served ↦ rw served (
    record {
      queue = q;
      there = there;
      own = ground (arith, served);
      awake = ground (arith, served);
    },
    names-IsServed queues qs rest,
  )
  | inr other ↦ rw other (names-IsServed queues qs rest)
]
