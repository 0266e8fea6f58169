-- ===== src/Server/Steps/AllTicked.antt =====
-- The `ticker` of all queues of sql/pgque.sql, from the queues' keys and the order of their names.
use pg_que.Base.{
  ℕ, ◌≤◌, ◌≡◌, refl, sym, ap, ◌∙◌, String, str_eq, Bool, true, false, not, ◌&&◌, Option-cases, none,
  some, List, [], ◌∷◌, length, length-map, All, Bool-cases, inl, inr, if◌then◌else◌, arith,
}
use pg_que.Base.Selections.{select}
use pg_que.Exec.{Result, ok}
use pg_que.Server.Tables.{Db, Queue, find}
use pg_que.Server.Ticks.{ticks_of, queue_named, ticker}
use pg_que.Server.Tickers.{has_ticker, tick_each, names, ticker_all}
use pg_que.Server.Steps.Valid.{IsValid}
use pg_que.Server.Steps.Rows.{All-map}
use pg_que.Server.Steps.Everywhere.{IsServed, tick_each_returns, names-IsServed}
use pg_que.Server.Steps.EachQueue.{
  HasOwnQueues, named-IsApart, none_left, tick_each-Alike, tick_each-ticks,
}
use pg_que.Server.Steps.Names.{by_name, all_named, met}

-- What `order by` keeps: the list is another order of the same names.
abbrev pub IsOrder : (List String → List String) → Type 0
IsOrder order =
    (p : String → Bool) (ns : List String) → length (select p (order ns)) ≡ length (select p ns)

-- A queue that the loop leaves out is left as it is by its own ticker, which raises.
silent :
    (name : String) (q : Queue) (db : Db)
    → queue_named db name ≡ some q
    → has_ticker q ≡ false
    → (ticker name db).1 ≡ db
unfolding ticker
silent name q db is_q out =
    rw (is_q, ticker)
      (elim (Bool-cases q.queue_external_ticker) [
        | inl outside ↦ rw outside refl
        | inr own ↦ elim (Bool-cases q.queue_ticker_paused) [
          | inl paused ↦ rw (own, paused) refl
          | inr awake ↦ absurd (cc (out, served own awake))
        ]
      ])
  where
    served : q.queue_external_ticker ≡ false → q.queue_ticker_paused ≡ false → has_ticker q ≡ true
    served own awake = rw (own, awake) refl

abbrev is_served : List Queue → String → Bool
is_served qs name = elim (find (by_name name) qs) [ none ↦ false | some q ↦ has_ticker q ]

is_served-IsServed : (qs : List Queue) (name : String) → is_served qs name ≡ true → IsServed qs name
is_served-IsServed qs name h = elim (Option-cases (find (by_name name) qs)) [
  | inl none_there ↦ absurd (not_there (rw (none_there, is_served) at h))
  | inr (q, is_q) ↦
      let (own, awake) =
        parts q.queue_external_ticker q.queue_ticker_paused (rw (is_q, is_served) at h) in
      record { queue = q; there = is_q; own = own; awake = awake }
]
  where
    not_there : false ≡ true → ⊥
    not_there h = cc

    parts : (a b : Bool) → (not a && not b) ≡ true → (a ≡ false) × (b ≡ false)
    parts a b h = ground arith

IsServed-is_served : (qs : List Queue) (name : String) → IsServed qs name → is_served qs name ≡ true
IsServed-is_served qs name s = rw (s.there, is_served) (rw (s.own, s.awake) refl)

none_unserved :
    (p : String → Bool) (ns : List String)
    → All (λ n. p n ≡ true) ns
    → length (select (λ n. not (p n)) ns) ≡ 0
unfolding select
none_unserved p [] h = refl
none_unserved p (n ∷ ns) (h, hs) = rw h (none_unserved p ns hs)

twice_negated : (b : Bool) → not b ≡ false → b ≡ true
twice_negated b h = ground arith

all_selected : (ns : List String) → length (select (λ n. true) ns) ≡ length ns
unfolding select
all_selected [] = refl
all_selected (n ∷ ns) = omega (arith, all_selected ns)

module _ (order : List String → List String) (ordered : IsOrder order) (db : Db) (v : IsValid db db)
    (own : HasOwnQueues db.queues) where
  ordered-IsServed : All (IsServed db.queues) (order (names db))
  ordered-IsServed =
      All-map _ (IsServed db.queues) (order (names db))
        (λ n h. is_served-IsServed db.queues n (twice_negated _ h))
        (none_left (λ n. not (is_served db.queues n)) (order (names db))
          (ordered (λ n. not (is_served db.queues n)) (names db)
            ∙ none_unserved (is_served db.queues) (names db) (
                All-map (IsServed db.queues) _ (names db) (IsServed-is_served db.queues)
                  (names-IsServed db.queues db.queues (all_named db.queues own.own_name)))))

  same_length :
      length (order (names db))
      ≡ length (select (λ q. not q.queue_external_ticker && not q.queue_ticker_paused) db.queues)
  same_length =
      sym (all_selected (order (names db)))
      ∙ ordered (λ n. true) (names db)
      ∙ all_selected (names db)
      ∙ length-map (select has_ticker db.queues) (λ q. q.queue_name)

  each_ticked :
      (name : String) (q : Queue)
      → queue_named db name ≡ some q
      → ticks_of q.queue_id (tick_each 0 (order (names db)) db).1.ticks
        ≡ ticks_of q.queue_id (ticker name db).1.ticks
  each_ticked name q is_q =
      let count =
        ordered (λ n. str_eq n name) (names db) ∙ met name q db.queues own.own_name is_q in
      let apart = named-IsApart db name q own is_q in
      elim (Bool-cases (has_ticker q)) [
        | inl served ↦
            tick_each-ticks name q 0 (order (names db)) db v ordered-IsServed is_q apart
              (count ∙ ap (λ b. if b then 1 else 0) served)
        | inr out ↦
            let a =
              tick_each-Alike name q.queue_id 0 (order (names db)) db v ordered-IsServed apart
                (count ∙ ap (λ b. if b then 1 else 0) out) in
            a.ticks ∙ ap (λ (d : Db). ticks_of q.queue_id d.ticks) (sym (silent name q db is_q out))
      ]

  -- In valid tables with the keys of the queues, the `ticker` of all queues returns, however the
  -- database orders their names; the number returned is at most that of the queues that are not paused
  -- and have no external ticker; and each queue then has the ticks that its own `ticker` alone would
  -- have given it, so that no queue keeps another from its tick.
  pub ticker_all_ticks :
      (name : String) (q : Queue)
      → queue_named db name ≡ some q
      → (n : ℕ) × (db' : Db) × (ticker_all order db ≡ (ok n, db'))
        × (n
            ≤ length
                (select (λ q. not q.queue_external_ticker && not q.queue_ticker_paused) db.queues))
        × (ticks_of q.queue_id db'.ticks ≡ ticks_of q.queue_id (ticker name db).1.ticks)
  unfolding ticker_all
  ticker_all_ticks name q is_q =
      let (n, db', run, few) = tick_each_returns 0 (order (names db)) db v ordered-IsServed in
      (
        n,
        db',
        run,
        omega (arith, few, same_length),
        ap (λ (x : Result ℕ × Db). ticks_of q.queue_id x.1.ticks) (sym run)
            ∙ each_ticked name q is_q,
      )
