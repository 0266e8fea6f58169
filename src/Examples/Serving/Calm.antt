-- ===== src/Examples/Serving/Calm.antt =====
-- The session meets Driver/Assumptions.antt: its statements raise database errors only, and its
-- transactions are isolated.
use mathlib.Core.Path.{subst}
use pg_que.Base.{
  ℕ, String, ◌≡◌, refl, Bool, true, false, Option, none, some, List, leb, Option-cases, inl, inr,
  if◌then◌else◌, str_eq, ◌⊎◌, ◌&&◌,
}
use pg_que.Value.{Value, nat}
use pg_que.Errors.{DbError, Exn, database, is_exception}
use pg_que.Exec.{Result, ok, err, Exec, follow, pure, raise, ◌>>=◌}
use pg_que.Driver.{Query}
use pg_que.Driver.Assumptions.{IsCalm, IsTransactional}
use pg_que.Client.Requests.{nack_text}
use pg_que.Server.Tables.{Db}
use pg_que.Server.Batches.{receive, ack}
use pg_que.Server.Batches.Received.{
  Received, refused, empty, delivered, receive-Received, Finished, unfinished, closed,
  finish_batch-Finished,
}
use pg_que.Server.Nack.{nack}
use pg_que.Server.Nack.Traced.{Nacked, parked, refused as turned_down, nack-Nacked}
use pg_que.Examples.Serving.{
  Postgres, Session, server, statement, execute, in_failed, outcome, commit, rollback, undone,
  one_row, no_function, reject, receive_arguments, ack_arguments, nack_arguments, call_receive,
  call_ack, call_nack, call_other,
}

-- Every error is the database's.
abbrev AllDatabase : {A : Type 0} → Result A → Type 0
AllDatabase (ok a) = Unit
AllDatabase (err (database e)) = Unit
AllDatabase (err _) = ⊥

by_received :
    {db : Db} {queue consumer : String} {r : Result (List (List Value)) × Db}
    → Received db queue consumer r
    → AllDatabase r.0
by_received (refused e db') = tt
by_received (empty db') = tt
by_received (delivered batch_id ev evs db' given rows) = tt

once_closed :
    {r : Result ℕ × Db} → Finished r → AllDatabase (follow (λ n. pure (one_row (nat n))) r.0 r.1).0
once_closed (unfinished text db') = tt
once_closed (closed n db') = tt

by_nacked :
    {db : Db} {batch_id id after : ℕ} {reason : Option String} {r : Result ℕ × Db}
    → Nacked db batch_id id after reason r
    → AllDatabase (follow (λ n. pure (one_row (nat n))) r.0 r.1).0
by_nacked (parked f) = tt
by_nacked (turned_down text) = tt

by_receive :
    (queue consumer : String) (n : ℕ) (b : Bool) (db : Db)
    → AllDatabase ((if b then receive queue consumer n else no_function) db).0
by_receive queue consumer n true db = by_received (receive-Received db queue consumer n)
by_receive queue consumer n false db = tt

call_receive-AllDatabase : (ps : List Value) (db : Db) → AllDatabase (call_receive ps db).0
unfolding call_receive
call_receive-AllDatabase ps db = elim (Option-cases (receive_arguments ps)) [
  | inl wrong ↦ rw (call_receive, wrong) tt
  | inr ((queue, consumer, n), given) ↦
      rw (call_receive, given) (by_receive queue consumer n (leb n 2147483647) db)
]

call_ack-AllDatabase : (ps : List Value) (db : Db) → AllDatabase (call_ack ps db).0
unfolding call_ack ack
call_ack-AllDatabase ps db = elim (Option-cases (ack_arguments ps)) [
  | inl wrong ↦ rw (call_ack, wrong) tt
  | inr (batch_id, given) ↦ rw (call_ack, given) (once_closed (finish_batch-Finished batch_id db))
]

by_casts :
    (batch_id id : ℕ) (reason : Option String) (b : Bool) (o : Option ℕ) (db : Db)
    → AllDatabase
        ((if b
            then elim o as (λ x. Exec Db (List (List Value))) [
              | none ↦ reject "invalid input syntax for type interval" "22007"
              | some seconds ↦ nack batch_id id seconds reason >>= λ n. pure (one_row (nat n))
            ]
            else reject "invalid input syntax" "22P02")
          db).0
by_casts batch_id id reason true none db = tt
by_casts batch_id id reason true (some n) db = by_nacked (nack-Nacked db batch_id id n reason)
by_casts batch_id id reason false o db = tt

call_nack-AllDatabase :
    (P : Postgres) (ps : List Value) (db : Db) → AllDatabase (call_nack P ps db).0
unfolding call_nack
call_nack-AllDatabase P ps db = elim (Option-cases (nack_arguments ps)) [
  | inl wrong ↦ rw (call_nack, wrong) tt
  | inr ((batch_id, id, columns, after, reason), given) ↦
      rw (call_nack, given)
        (by_casts batch_id id reason (P.is_message columns) (P.interval_seconds after) db)
]

by_other :
    (r : (DbError ⊎ List (List Value)) × Db)
    → AllDatabase (elim r.0 as (λ x. Result (List (List Value))) [
      | inl e ↦ err (database e)
      | inr rows ↦ ok rows
    ])
by_other (inl e, db') = tt
by_other (inr rows, db') = tt

statement-AllDatabase : (P : Postgres) (q : Query) (db : Db) → AllDatabase (statement P q db).0
unfolding statement
statement-AllDatabase P q db =
    by_text (str_eq q.text "select * from pgque.receive(%s, %s, %s)")
      (str_eq q.text "select pgque.ack(%s)") (str_eq q.text nack_text)
  where
    by_text :
        (a b c : Bool)
        → AllDatabase
            ((if a
                then call_receive q.params
                else if b
                then call_ack q.params
                else if c
                then call_nack P q.params
                else call_other P q)
              db).0
    by_text true b c = call_receive-AllDatabase q.params db
    by_text false true c = call_ack-AllDatabase q.params db
    by_text false false true = call_nack-AllDatabase P q.params db
    by_text false false false = by_other (P.other q db)

no_interrupt : (A : Type 0) (e : Exn) → AllDatabase {A = A} (err e) → is_exception e ≡ true
unfolding is_exception
no_interrupt A Exn.interrupt h = absurd h
no_interrupt A _ h = refl

AllDatabase-is_exception :
    (A : Type 0) (r : Result A) (e : Exn) → AllDatabase r → r ≡ err e → is_exception e ≡ true
AllDatabase-is_exception A r e h k = no_interrupt A e (subst AllDatabase k h)

execute-AllDatabase : (P : Postgres) (q : Query) (s : Session) → AllDatabase (execute P q s).0
unfolding execute
execute-AllDatabase P q s = by_failed s.failed (statement P q s.db) (statement-AllDatabase P q s.db)
  where
    by_failed :
        (b : Bool) (r : Result (List (List Value)) × Db)
        → AllDatabase r.0
        → AllDatabase (if b then raise in_failed s else outcome s r).0
    by_failed true r h = tt
    by_failed false (ok rows, db') h = tt
    by_failed false (err e, db') h = h

pub server-IsCalm : (P : Postgres) → IsCalm (server P)
server-IsCalm P = record {
  raises = λ q s e h. AllDatabase-is_exception _ (execute P q s).0 e (execute-AllDatabase P q s) h;
}

-- The tables but for the sequence, which no transaction isolates.
abbrev tables : Db → Db
tables db = record db { batch_id_seq = 0 }

abbrev seen : Session → Db
seen s = tables (if s.in_block then s.saved else s.db)

module _ (P : Postgres) (q : Query) (s : Session) where
  abbrev step : Bool → Result (List (List Value)) × Db → Result (List (List Value)) × Session
  step b r = if b then raise in_failed s else outcome s r

  step_open :
      (b : Bool) (r : Result (List (List Value)) × Db)
      → s.in_block ≡ true
      → (step b r).1.in_block ≡ true
  step_open true r h = h
  step_open false (ok rows, db') h = h
  step_open false (err e, db') h = rw h refl

  seen-step :
      (b : Bool) (r : Result (List (List Value)) × Db)
      → s.in_block ≡ true
      → seen (step b r).1 ≡ seen s
  seen-step true r h = refl
  seen-step false (ok rows, db') h = rw h refl
  seen-step false (err e, db') h = rw h refl

  step_failed :
      (b : Bool) (r : Result (List (List Value)) × Db) (e : Exn)
      → s.failed ≡ b
      → s.in_block ≡ true
      → (step b r).0 ≡ err e
      → ((step b r).1.failed && (step b r).1.in_block) ≡ true
  step_failed true r e f h k = rw (f, h) refl
  step_failed false (ok rows, db') e f h k = absurd (cc)
  step_failed false (err x, db') e f h k = rw h refl

  step_stays :
      (b : Bool) (r : Result (List (List Value)) × Db)
      → s.failed ≡ b
      → (s.failed && s.in_block) ≡ true
      → ((step b r).1.failed && (step b r).1.in_block) ≡ true
  step_stays true r f h = h
  step_stays false r f h = absurd (cc (rw f at h))

module _ (s : Session) where
  undone_seen :
      (f b : Bool)
      → (f && b) ≡ true
      → tables (if f then undone s else s.db) ≡ tables (if b then s.saved else s.db)
  undone_seen true true h = refl
  undone_seen true false h = absurd (cc)
  undone_seen false b h = absurd (cc)

  rolled_back : (b : Bool) → b ≡ true → tables (undone s) ≡ tables (if b then s.saved else s.db)
  rolled_back true h = refl
  rolled_back false h = absurd (cc)

pub server_transactions : (P : Postgres) → IsTransactional (server P)
unfolding execute commit rollback
server_transactions P = record {
  Data = Db;
  committed = seen;
  is_open = λ s. s.in_block;
  is_failed = λ s. s.failed && s.in_block;
  begin_committed = λ s. refl;
  begin_open = λ s h. refl;
  execute_open = λ q s h. step_open P q s s.failed (statement P q s.db) h;
  execute_committed = λ q s h. seen-step P q s s.failed (statement P q s.db) h;
  execute_failed = λ q s e state h answered reported.
      step_failed P q s s.failed (statement P q s.db) (database e) refl h answered;
  failed_stays = λ q s h. step_stays P q s s.failed (statement P q s.db) refl h;
  failed_commit = λ s h. undone_seen s s.failed s.in_block h;
  rollback_committed = λ s h. rolled_back s s.in_block h;
}
