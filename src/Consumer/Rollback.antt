-- ===== src/Consumer/Rollback.antt =====
-- `_poll_once` and its transaction: what the rest of the database sees of a poll that fails.
use pg_que.Base.{
  String, ◌≡◌, ◌≢◌, refl, Bool, true, false, Option, none, some, List, [], ◌∷◌, ◌||◌, not, ◌⊎◌, inl,
  inr, ◌∙◌,
}
use pg_que.Value.{Value}
use pg_que.Errors.{DbError, Exn, database}
use pg_que.Exec.{Result, ok, err, follow, pure, is_ok}
use pg_que.Types.{Message}
use pg_que.Driver.{Driver, Query}
use pg_que.Driver.Assumptions.{IsCalm, IsTransactional}
use pg_que.Client
use pg_que.Client.Requests.{nack_request}
use pg_que.Client.Keeps.{nack_keeps}
use pg_que.Consumer.{
  Consumer, World, receive_batch, poll_block, poll_once, transaction, end_transaction,
}
use pg_que.Consumer.Plan.{plan, nack_all}
use pg_que.Consumer.Polling.{nack_all-true, process_unacked}
use pg_que.Consumer.Keeps.{poll_block_keeps, receive_batch_keeps, nack_all_keeps}

or_true : (b : Bool) → (b || true) ≡ true
or_true true = refl
or_true false = refl

module _ (D : Driver) {E : Type 0} (c : Consumer E) (b : Value) where
  -- The server answers the nack of a message with an error.
  pub record Rejected (m : Message) (reason : Option String) (s : D.State) : Type 0 where
    pub query : Query
    pub error : DbError
    pub state : String
    pub requested : nack_request b m c.retry_after reason ≡ ok query
    pub answered : (D.execute query s).0 ≡ err (database error)
    pub reported : error.sqlstate ≡ some state

  -- So with some nack of the list.
  abbrev pub SomeRejected : List (Message × Option String) → D.State → Type 0
  SomeRejected [] s = ⊥
  SomeRejected ((m, reason) ∷ ns) s =
      Rejected m reason s ⊎ SomeRejected ns (Client.nack D b m c.retry_after reason s).1

module _ (D : Driver) (T : IsTransactional D) where
  -- A transaction is open, and the others see what they saw in `s`.
  abbrev Isolated : D.State → D.State → Type 0
  Isolated s t = (T.is_open t ≡ true) × (T.committed t ≡ T.committed s)

  Isolated-execute :
      (s : D.State) (q : Query) (t : D.State) → Isolated s t → Isolated s (D.execute q t).1
  Isolated-execute s q t h = (T.execute_open q t h.0, T.execute_committed q t h.0 ∙ h.1)

  Isolated-begin : (s : D.State) → (D.begin s).0 ≡ ok tt → Isolated s (D.begin s).1
  Isolated-begin s h = (T.begin_open s h, T.begin_committed s)

module _ (D : Driver) (T : IsTransactional D) {E : Type 0} (d : T.Data) where
  ended_unsuccessfully :
      (r : Result (Unit {0})) (w : World D.State E)
      → T.committed w.db ≡ d
      → ((follow (λ u. pure false) r w).0 ≢ ok true)
        × (T.committed (follow (λ u. pure false) r w).1.db ≡ d)
  ended_unsuccessfully (ok u) w h = (λ e. cc, h)
  ended_unsuccessfully (err x) w h = (λ e. cc, h)

module _ (D : Driver) (calm : IsCalm D) (T : IsTransactional D) {E : Type 0} (c : Consumer E) where
  -- The world in which the block of the transaction starts.
  abbrev pub begun : World D.State E → World D.State E
  begun w = record w { db = (D.begin w.db).1 }

  poll_once-begun :
      (w : World D.State E)
      → (D.begin w.db).0 ≡ ok tt
      → poll_once D c w ≡ (let (r, w') = poll_block D c (begun w) in end_transaction D r w')
  unfolding poll_once transaction
  poll_once-begun w started = rw started refl

  -- If the block of the transaction raises, the poll raises the same, and nothing that it sent to
  -- the server is left.
  pub poll_once_raises :
      (w : World D.State E) (e : Exn)
      → (D.begin w.db).0 ≡ ok tt
      → (poll_block D c (begun w)).0 ≡ err e
      → ((poll_once D c w).0 ≡ err e) × (T.committed (poll_once D c w).1.db ≡ T.committed w.db)
  unfolding end_transaction
  poll_once_raises w e started raised =
      let kept =
        poll_block_keeps D calm (Isolated D T w.db) (Isolated-execute D T w.db) c (begun w)
          (Isolated-begin D T w.db started) in
      rw (poll_once-begun w started) (rw raised (refl, T.rollback_committed _ kept.0 ∙ kept.1))

  nack-Rejected :
      (b : Value) (m : Message) (reason : Option String) (s : D.State)
      → T.is_open s ≡ true
      → Rejected D c b m reason s
      → ((is_ok (Client.nack D b m c.retry_after reason s).0) ≡ false)
        × (T.is_failed (Client.nack D b m c.retry_after reason s).1 ≡ true)
  unfolding Client.nack Client.run
  nack-Rejected b m reason s opened r =
      rw (r.requested, r.answered)
        (refl, T.execute_failed r.query s r.error r.state opened r.answered r.reported)

  flag_stays :
      (b : Value) (ns : List (Message × Option String)) (f : Bool) (s : D.State)
      → f ≡ true
      → (nack_all D c b ns f s).0 ≡ true
  flag_stays b ns f s h = rw h (nack_all-true D c b ns s)

  nack_all_rejected :
      (b : Value) (ns : List (Message × Option String)) (failed : Bool) (s : D.State)
      → T.is_open s ≡ true
      → SomeRejected D c b ns s
      → ((nack_all D c b ns failed s).0 ≡ true)
        × (T.is_failed (nack_all D c b ns failed s).1 ≡ true)
  unfolding nack_all
  nack_all_rejected b [] failed s opened h = elim h [ ]
  nack_all_rejected b ((m, reason) ∷ ns) failed s opened (inl now) =
      let rejected = nack-Rejected b m reason s opened now in
      let flag : (failed || not (is_ok (Client.nack D b m c.retry_after reason s).0)) ≡ true =
        rw (rejected.0) (or_true failed) in
      (
        flag_stays b ns _ _ flag,
        nack_all_keeps D calm (λ t. T.is_failed t ≡ true) T.failed_stays c b ns _ _ rejected.1,
      )
  nack_all_rejected b ((m, reason) ∷ ns) failed s opened (inr later) =
      nack_all_rejected b ns _ _
        (nack_keeps D (λ t. T.is_open t ≡ true) T.execute_open b m c.retry_after reason s opened)
        later

  -- If the server rejects some nack of a batch whose loop runs through, the poll does not report
  -- success, and nothing of it is left: the other nacks of the batch are undone with it.
  pub rejected_nack_undoes_poll :
      (m : Message) (ms : List Message) (w w' : World D.State E)
      → (D.begin w.db).0 ≡ ok tt
      → receive_batch D c (begun w) ≡ (ok (m ∷ ms), w')
      → (plan c (m ∷ ms) w'.app).stop ≡ none
      → SomeRejected D c m.batch_id (plan c (m ∷ ms) w'.app).nacks w'.db
      → ((poll_once D c w).0 ≢ ok true) × (T.committed (poll_once D c w).1.db ≡ T.committed w.db)
  unfolding poll_block end_transaction
  rejected_nack_undoes_poll m ms w w' started received through rejected =
      let kept =
        receive_batch_keeps D calm (Isolated D T w.db) (Isolated-execute D T w.db) c (begun w)
          (Isolated-begin D T w.db started) in
      let isolated : Isolated D T w.db w'.db = rw received at kept in
      let p = plan c (m ∷ ms) w'.app in
      let bad = nack_all_rejected m.batch_id p.nacks false w'.db isolated.0 rejected in
      let still =
        nack_all_keeps D calm (Isolated D T w.db) (Isolated-execute D T w.db) c m.batch_id p.nacks
          false w'.db isolated in
      let (r, s) = D.commit (nack_all D c m.batch_id p.nacks false w'.db).1 in
      rw (poll_once-begun w started) (
        rw (received, process_unacked D calm c m ms w' through bad.0)
          (ended_unsuccessfully D T (T.committed w.db) r (record { db = s; app = p.app })
            (T.failed_commit _ bad.1 ∙ still.1)))
