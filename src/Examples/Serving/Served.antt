-- ===== src/Examples/Serving/Served.antt =====
-- The session meets Server/Serves.antt.
use pg_que.Base.{
  ℕ, String, ◌≡◌, refl, sym, ap, ◌∙◌, Bool, true, false, Option, none, some, List, ◌∷◌, leb,
  if◌then◌else◌,
}
use pg_que.Value.{Value, nat}
use pg_que.Exec.{Result, ok, err, Exec, follow_ok, pure, raise, ◌>>=◌}
use pg_que.Driver.{Query}
use pg_que.Client.Requests.{receive_query, ack_query, nack_text}
use pg_que.Server.Tables.{Db}
use pg_que.Server.Batches.{receive, ack}
use pg_que.Server.Nack.{nack}
use pg_que.Server.Serves.{Serves}
use pg_que.Examples.Serving.{
  Postgres, Session, server, statement, execute, commit, outcome, in_failed, undone, no_function,
  reject, one_row, call_receive, call_ack, call_nack, receive_arguments, ack_arguments,
  nack_arguments, other_arguments,
}

module _ (P : Postgres) where
  execute_ok :
      (q : Query) (rows : List (List Value)) (s s' : Session)
      → execute P q s ≡ (ok rows, s')
      → (s.failed ≡ false) × (s'.failed ≡ false) × (statement P q s.db ≡ (ok rows, s'.db))
  unfolding execute
  execute_ok q rows s s' h = by_failed s.failed refl (statement P q s.db) h
    where
      by_failed :
          (b : Bool)
          → s.failed ≡ b
          → (r : Result (List (List Value)) × Db)
          → (if b then raise in_failed s else outcome s r) ≡ (ok rows, s')
          → (s.failed ≡ false) × (s'.failed ≡ false) × (r ≡ (ok rows, s'.db))
      by_failed true f r k = absurd (cc)
      by_failed false f (ok rs, d) k =
          let same = ap (λ (x : Result (List (List Value)) × Session). x.1) k in
          (
            f,
            sym (ap (λ (x : Session). x.failed) same) ∙ f,
            (λ i. ((ap (λ (x : Result (List (List Value)) × Session). x.0) k) i, (same i).db)),
          )
      by_failed false f (err e, d) k = absurd (cc)

  by_size :
      (b : Bool) (r : Exec Db (List (List Value))) (db : Db) (rows : List (List Value)) (left : Db)
      → (if b then r else no_function) db ≡ (ok rows, left)
      → r db ≡ (ok rows, left)
  by_size true r db rows left h = h
  by_size false r db rows left h = absurd (cc)

  pub server_received :
      (queue consumer : String) (n : ℕ) (rows : List (List Value)) (s s' : Session)
      → execute P (receive_query queue consumer n) s ≡ (ok rows, s')
      → receive queue consumer n s.db ≡ (ok rows, s'.db)
  unfolding statement call_receive receive_arguments
  server_received queue consumer n rows s s' h =
      by_size (leb n 2147483647) (receive queue consumer n) s.db rows s'.db
        (execute_ok (receive_query queue consumer n) rows s s' h).2

  pub server_acked :
      (batch_id : ℕ) (rows : List (List Value)) (s s' : Session)
      → execute P (ack_query (nat batch_id)) s ≡ (ok rows, s')
      → (n : ℕ) × (ack batch_id s.db ≡ (ok n, s'.db))
  unfolding statement call_ack ack_arguments
  server_acked batch_id rows s s' h =
      let (n, done, last) =
        follow_ok (λ n. pure (one_row (nat n))) (ack batch_id s.db).0 (ack batch_id s.db).1 rows
          s'.db (execute_ok (ack_query (nat batch_id)) rows s s' h).2 in
      (n, (λ i. (done i, ap (λ (x : Result (List (List Value)) × Db). x.1) last i)))

  commit_sound : (s : Session) → s.failed ≡ false → (commit s).1.db ≡ s.db
  unfolding commit
  commit_sound s sound = by_failed s.failed sound
    where
      by_failed : (f : Bool) → f ≡ false → (if f then undone s else s.db) ≡ s.db
      by_failed true h = absurd (cc)
      by_failed false h = refl

  pub server_committed :
      (q : Query) (rows : List (List Value)) (s t t' : Session)
      → execute P q s ≡ (ok rows, t)
      → commit t ≡ (ok tt, t')
      → t'.db ≡ t.db
  server_committed q rows s t t' h k =
      sym (ap (λ (x : Result (Unit {0}) × Session). x.1.db) k)
      ∙ commit_sound t (execute_ok q rows s t h).1

  abbrev pub Nackable : ℕ → ℕ → Db → Db → Type 0
  Nackable batch_id id d d' =
      (seconds : ℕ) × (reason : Option String) × (n : ℕ) × (nack batch_id id seconds reason d
        ≡ (ok n, d'))

  pub server_nacked :
      (batch_id id : ℕ) (others : List Value) (rows : List (List Value)) (s s' : Session)
      → execute P (record { text = nack_text; params = nat batch_id ∷ nat id ∷ others }) s
        ≡ (ok rows, s')
      → Nackable batch_id id s.db s'.db
  unfolding statement call_nack nack_arguments
  server_nacked batch_id id others rows s s' h =
      by_others (other_arguments id others)
        (execute_ok (record { text = nack_text; params = nat batch_id ∷ nat id ∷ others }) rows s s'
          h).2
    where
      by_casts :
          (b : Bool) (o : Option ℕ) (reason : Option String)
          → (if b
                then elim o as (λ x. Exec Db (List (List Value))) [
                  | none ↦ reject "invalid input syntax for type interval" "22007"
                  | some seconds ↦ nack batch_id id seconds reason >>= λ n. pure (one_row (nat n))
                ]
                else reject "invalid input syntax" "22P02")
              s.db
            ≡ (ok rows, s'.db)
          → Nackable batch_id id s.db s'.db
      by_casts true none reason k = absurd (cc)
      by_casts true (some seconds) reason k =
          let (n, done, last) =
            follow_ok (λ n. pure (one_row (nat n))) (nack batch_id id seconds reason s.db).0
              (nack batch_id id seconds reason s.db).1 rows s'.db k in
          (
            seconds,
            reason,
            n,
            (λ i. (done i, ap (λ (x : Result (List (List Value)) × Db). x.1) last i)),
          )
      by_casts false o reason k = absurd (cc)

      by_others :
          (o : Option (List Value × String × Option String))
          → (elim (elim o as (λ x. Option (ℕ × ℕ × List Value × String × Option String)) [
            | none ↦ none
            | some (columns, after, reason) ↦ some (batch_id, id, columns, after, reason)
          ])
                as (λ x. Exec Db (List (List Value))) [
                  | none ↦ no_function
                  | some (b, m, columns, after, reason) ↦
                      if P.is_message columns
                      then elim (P.interval_seconds after) as (λ x. Exec Db (List (List Value))) [
                        | none ↦ reject "invalid input syntax for type interval" "22007"
                        | some seconds ↦ nack b m seconds reason >>= λ n. pure (one_row (nat n))
                      ]
                      else reject "invalid input syntax" "22P02"
                ])
              s.db
            ≡ (ok rows, s'.db)
          → Nackable batch_id id s.db s'.db
      by_others none k = absurd (cc)
      by_others (some (columns, after, reason)) k =
          by_casts (P.is_message columns) (P.interval_seconds after) reason k

  abbrev pub server_serves : Serves (server P)
  server_serves = record {
    tables = λ s. s.db;
    begun = λ s h. refl;
    received = server_received;
    acked = server_acked;
    nacked = server_nacked;
    committed = server_committed;
  }
