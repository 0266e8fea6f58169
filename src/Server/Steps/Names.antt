-- ===== src/Server/Steps/Names.antt =====
-- How often the names of queues of sql/pgque.sql occur, among the queues and among those that `ticker`
-- goes over.
use pg_que.Base.{
  ◌≤◌, ◌≡◌, refl, String, str_eq, eq_iff, Bool, true, some, List, [], ◌∷◌, length, map, Bool-cases,
  inl, inr, if◌then◌else◌, arith,
}
use pg_que.Base.Selections.{select}
use pg_que.Server.Tables.{Queue, find}
use pg_que.Server.Tables.Updates.{one_left, here, there}
use pg_que.Server.Tickers.{has_ticker}
use pg_que.Server.Steps.Rows.{All-map}
use pg_que.Server.Steps.Everywhere.{AreNamed}
use pg_que.Server.Steps.EachQueue.{times}

abbrev pub by_name : String → Queue → Bool
by_name name q = str_eq q.queue_name name

abbrev pub AreOwnNames : List Queue → Type 0
AreOwnNames qs = (name : String) → length (select (by_name name) qs) ≤ 1

fewer : (x : Queue) (qs : List Queue) → AreOwnNames (x ∷ qs) → AreOwnNames qs
unfolding select
fewer x qs own name = elim (Bool-cases (by_name name x)) [
  | inl hit ↦
      let one : length (x ∷ select (by_name name) qs) ≤ 1 = rw (hit, select) at (own name) in
      omega (arith, one)
  | inr miss ↦ rw (miss, select) at (own name)
]

none_more :
    (x : Queue) (qs : List Queue) (name : String)
    → AreOwnNames (x ∷ qs)
    → by_name name x ≡ true
    → length (select (by_name name) qs) ≡ 0
unfolding select
none_more x qs name own hit =
    let one : length (x ∷ select (by_name name) qs) ≤ 1 = rw (hit, select) at (own name) in
    omega (arith, one)

same_text : (s : String) → str_eq s s ≡ true
same_text s = (eq_iff s s).1 refl

pub all_named : (qs : List Queue) → AreOwnNames qs → AreNamed qs qs
all_named [] own = tt
all_named (x ∷ qs) own = (
  rw (same_text x.queue_name) refl,
  All-map _ (λ q. find (by_name q.queue_name) (x ∷ qs) ≡ some q) qs
      (λ q h. elim (Bool-cases (by_name q.queue_name x)) [
        | inl twice ↦
            let one =
              one_left (by_name q.queue_name) (by_name q.queue_name) qs q h
                (same_text q.queue_name) in
            absurd (omega (arith, one, none_more x qs q.queue_name own twice))
        | inr other ↦ rw other h
      ])
      (all_named qs (fewer x qs own)),
)

abbrev pub ticking : List Queue → List String
ticking qs = map (λ q. q.queue_name) (select has_ticker qs)

no_more :
    (name : String) (qs : List Queue) → times name (ticking qs) ≤ length (select (by_name name) qs)
unfolding select
no_more name [] = omega arith
no_more name (x ∷ qs) = elim (Bool-cases (has_ticker x)) [
  | inl served ↦ elim (Bool-cases (by_name name x)) [
    | inl hit ↦ rw (served, hit) (omega (arith, no_more name qs))
    | inr miss ↦ rw (served, miss) (no_more name qs)
  ]
  | inr other ↦ elim (Bool-cases (by_name name x)) [
    | inl hit ↦ rw (other, hit) (omega (arith, no_more name qs))
    | inr miss ↦ rw (other, miss) (no_more name qs)
  ]
]

-- The queue of a name is met once if it has a ticker, and otherwise not.
pub met :
    (name : String) (q : Queue) (qs : List Queue)
    → AreOwnNames qs
    → find (by_name name) qs ≡ some q
    → times name (ticking qs) ≡ (if has_ticker q then 1 else 0)
unfolding select
met name q [] own h = absurd (cc)
met name q (x ∷ qs) own h = elim (Bool-cases (by_name name x)) [
  | inl hit ↦
      let e = here (by_name name) x q qs h hit in
      let none_later : times name (ticking qs) ≡ 0 =
        omega (arith, no_more name qs, none_more x qs name own hit) in
      elim (Bool-cases (has_ticker x)) [
        | inl served ↦ rw (← e) (rw (served, hit) (omega (arith, none_later)))
        | inr other ↦ rw (← e) (rw other none_later)
      ]
  | inr miss ↦
      let rest = met name q qs (fewer x qs own) (there (by_name name) x q qs h miss) in
      elim (Bool-cases (has_ticker x)) [
        | inl served ↦ rw (served, miss) rest
        | inr other ↦ rw other rest
      ]
]
