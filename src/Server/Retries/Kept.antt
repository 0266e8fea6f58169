-- ===== src/Server/Retries/Kept.antt =====
-- A run of `maint_retry_events` of sql/pgque.sql.
use pg_que.Base.{
  ℕ, ◌≤◌, ◌≡◌, refl, zero, suc, Bool, true, false, Option, none, some, List, [], ◌∷◌, ◌&&◌, leb,
  take, length, All, Bool-cases, inl, inr, arith, ◌==◌, ◌||◌,
}
use pg_que.Base.Selections.{select, insert_by, order_by}
use pg_que.Exec.{ok}
use pg_que.Server.Tables.{Db, Queue, Retry, exists}
use pg_que.Server.Nack.{is_retry}
use pg_que.Server.Retries.{queue_of, is_found, due, maint_retry_events}
use pg_que.Server.Retries.Returned.{
  is_event_of, IsKept, HasOwnNames, HasOwnKey, HaveQueues, return_all-Returns,
}

-- The primary key of the retry queue.
abbrev pub HasOwnKeys : List Retry → Type 0
HasOwnKeys rs = All (λ r. HasOwnKey r rs) rs

module _ (P : Retry → Type 0) where
  All-take : (n : ℕ) (xs : List Retry) → All P xs → All P (take n xs)
  All-take zero xs h = tt
  All-take (suc n) [] h = tt
  All-take (suc n) (x ∷ xs) (h, hs) = (h, All-take n xs hs)

  All-insert_by :
      (key : Retry → ℕ) (x : Retry) (ys : List Retry) → P x → All P ys → All P (insert_by key x ys)
  unfolding insert_by
  All-insert_by key x [] h k = (h, tt)
  All-insert_by key x (y ∷ ys) h (k, ks) = elim (Bool-cases (leb (key x) (key y))) [
    | inl before ↦ rw before (h, (k, ks))
    | inr after ↦ rw after (k, All-insert_by key x ys h ks)
  ]

  All-order_by : (key : Retry → ℕ) (xs : List Retry) → All P xs → All P (order_by key xs)
  unfolding order_by
  All-order_by key [] h = tt
  All-order_by key (x ∷ xs) (h, hs) =
      All-insert_by key x (order_by key xs) h (All-order_by key xs hs)

  All-select :
      (p : Retry → Bool) (xs : List Retry) → All (λ x. p x ≡ true → P x) xs → All P (select p xs)
  unfolding select
  All-select p [] h = tt
  All-select p (x ∷ xs) (h, hs) = elim (Bool-cases (p x)) [
    | inl hit ↦ rw hit (h hit, All-select p xs hs)
    | inr miss ↦ rw miss (All-select p xs hs)
  ]

  All-due :
      (db : Db)
      → All
          (λ r. (leb r.ev_retry_after db.now && is_found (queue_of db r)) ≡ true → P r)
          db.retry_queue
      → All P (due db)
  unfolding due
  All-due db h =
      All-take 10 _ (All-order_by (λ r. r.ev_retry_after) _ (All-select _ db.retry_queue h))

pub All-weaken :
    (P Q : Retry → Type 0) (xs : List Retry) → ((x : Retry) → P x → Q x) → All P xs → All Q xs
All-weaken P Q [] f h = tt
All-weaken P Q (x ∷ xs) f (h, hs) = (f x h, All-weaken P Q xs f hs)

each : (P : Retry → Type 0) (xs : List Retry) → ((x : Retry) → P x) → All P xs
each P [] f = tt
each P (x ∷ xs) f = (f x, each P xs f)

found_queue : (c : Bool) (o : Option Queue) → (c && is_found o) ≡ true → (q : Queue) × (o ≡ some q)
found_queue true none h = absurd (cc)
found_queue false none h = absurd (cc)
found_queue c (some q) h = (q, refl)

pub due-HaveQueues : (db : Db) → HaveQueues db (due db)
due-HaveQueues db =
    All-due (λ d. (q : Queue) × (queue_of db d ≡ some q)) db
      (each _ db.retry_queue (λ r h. found_queue (leb r.ev_retry_after db.now) (queue_of db r) h))

due_length : (n : ℕ) (xs : List Retry) → length (take n xs) ≤ n
due_length zero xs = omega arith
due_length (suc n) [] = omega arith
due_length (suc n) (x ∷ xs) = omega (arith, due_length n xs)

has_row : (xs : List Retry) → All (λ r. exists (is_retry r.ev_owner r.ev_id) xs ≡ true) xs
has_row [] = tt
has_row (x ∷ xs) = (
  rw (same x.ev_owner, same x.ev_id) refl,
  All-weaken (λ r. exists (is_retry r.ev_owner r.ev_id) xs ≡ true)
      (λ r. exists (is_retry r.ev_owner r.ev_id) (x ∷ xs) ≡ true) xs
      (λ r h. or_true (is_retry r.ev_owner r.ev_id x) (exists (is_retry r.ev_owner r.ev_id) xs) h)
      (has_row xs),
)
  where
    same : (n : ℕ) → (n == n) ≡ true
    same n = ground arith

    or_true : (a b : Bool) → b ≡ true → (a || b) ≡ true
    or_true a b e = ground arith

both : (P Q : Retry → Type 0) (xs : List Retry) → All P xs → All Q xs → All (λ x. P x × Q x) xs
both P Q [] h k = tt
both P Q (x ∷ xs) (h, hs) (k, ks) = ((h, k), both P Q xs hs ks)

module _ (db db' : Db) (n : ℕ) (names : HasOwnNames db) (keys : HasOwnKeys db.retry_queue) where
  -- If the names of the queues and the keys of the retry queue are unique, and `maint_retry_events`
  -- returns a number, this is the number of rows that were due, ten at most; the events of all of
  -- these are in their queues, for their owners and with their counts of retries; and each other row
  -- of the retry queue is still there, or its event is in its queue.
  pub maint_retry_events-IsKept :
      maint_retry_events db ≡ (ok n, db')
      → (n ≡ length (due db))
        × (n ≤ 10)
        × All (λ r. exists (is_event_of r) (db'.events r.ev_queue) ≡ true) (due db)
        × All (λ r. IsKept r db') db.retry_queue
  unfolding maint_retry_events due
  maint_retry_events-IsKept h =
      let r = return_all-Returns 0 n (due db) db db' names (due-HaveQueues db) h in
      (
        omega (arith, r.count),
        omega (arith, r.count, due_length 10 _),
        r.moved,
        All-weaken _ _ db.retry_queue
            (λ x (own, there).
              r.kept x
                (All-due (λ d. is_retry x.ev_owner x.ev_id d ≡ true → d ≡ x) db
                  (All-weaken _ _ db.retry_queue (λ d k due. k) own))
                (inl there))
            (both _ _ db.retry_queue keys (has_row db.retry_queue)),
      )
