-- ===== src/Consumer/Polling.antt =====
-- What `_poll_once` does with a batch: when it acks, and what has become of the messages then.
use pg_que.Base.{
  String, ◌≡◌, refl, Bool, true, false, Option, none, some, List, [], ◌∷◌, not, arith, sym, ◌∙◌,
  ◌↔◌, ap,
}
use mathlib.Core.Bool.{false≢true}
use pg_que.Value.{Value}
use pg_que.Errors.{Exn}
use pg_que.Exec.{Result, ok, err, is_ok, pure, follow}
use pg_que.Types.{Message}
use pg_que.Driver.{Driver}
use pg_que.Driver.Assumptions.{IsCalm}
use pg_que.Client
use pg_que.Consumer.{Consumer, World, finish, process}
use pg_que.Consumer.Plan.{plan, nack_all}
use pg_que.Consumer.Dispatch.{carry_out, dispatch-eq-carry_out}

module _ (D : Driver) {E : Type 0} (c : Consumer E) (b : Value) where
  -- Every nack of the list has succeeded, from the first state to the second.
  abbrev pub AllNacked : List (Message × Option String) → D.State → D.State → Type 0
  AllNacked [] s t = s ≡ t
  AllNacked ((m, reason) ∷ ns) s t =
      ((Client.nack D b m c.retry_after reason s).0 ≡ ok tt)
      × AllNacked ns (Client.nack D b m c.retry_after reason s).1 t

  -- The flag stays once it is set.
  pub nack_all-true :
      (ns : List (Message × Option String)) (s : D.State) → (nack_all D c b ns true s).0 ≡ true
  unfolding nack_all
  nack_all-true [] s = refl
  nack_all-true ((m, reason) ∷ ns) s = nack_all-true ns (Client.nack D b m c.retry_after reason s).1

  pub nack_all-false :
      (ns : List (Message × Option String)) (failed : Bool) (s : D.State)
      → (nack_all D c b ns failed s).0 ≡ false
      → AllNacked ns s (nack_all D c b ns failed s).1
  unfolding nack_all
  nack_all-false [] failed s h = refl
  nack_all-false ((m, reason) ∷ ns) true s h =
      absurd (false≢true (sym h ∙ nack_all-true ((m, reason) ∷ ns) s))
  nack_all-false ((m, reason) ∷ ns) false s h =
      let (r, s') = Client.nack D b m c.retry_after reason s in
      first (λ t g. nack_all-false ns false t g) r s' h
    where
      first :
          ((t : D.State)
            → (nack_all D c b ns false t).0 ≡ false
            → AllNacked ns t (nack_all D c b ns false t).1)
          → (r : Result (Unit {0})) (s' : D.State)
          → (nack_all D c b ns (not (is_ok r)) s').0 ≡ false
          → (r ≡ ok tt) × AllNacked ns s' (nack_all D c b ns (not (is_ok r)) s').1
      first ih (ok u) s' g = (refl, ih s' g)
      first ih (err x) s' g = absurd (false≢true (sym g ∙ nack_all-true ns s'))

  pub AllNacked-nack_all :
      (ns : List (Message × Option String)) (s t : D.State)
      → AllNacked ns s t
      → nack_all D c b ns false s ≡ (false, t)
  unfolding nack_all
  AllNacked-nack_all [] s t h = λ i. (false, h i)
  AllNacked-nack_all ((m, reason) ∷ ns) s t (now, later) = rw now (AllNacked-nack_all ns _ t later)

module _ (D : Driver) {E : Type 0} (c : Consumer E) (m : Message) (ms : List Message) where
  -- The batch of `m` and `ms` is settled between two worlds: no handler has stopped the loop, the
  -- nacks of the plan have all succeeded, in order, and then the ack has.
  pub record Settled (w w' : World D.State E) : Type 0 where
    pub runs_through : (plan c (m ∷ ms) w.app).stop ≡ none
    pub handled : w'.app ≡ (plan c (m ∷ ms) w.app).app
    pub between : D.State
    pub nacked : AllNacked D c m.batch_id (plan c (m ∷ ms) w.app).nacks w.db between
    pub reply : Value
    pub acked : Client.ack D m.batch_id between ≡ (ok reply, w'.db)

module _ (D : Driver) {E : Type 0} (b : Value) where
  abbrev Ended : Option Exn → Bool → World D.State E → World D.State E → Type 0
  Ended stop f w w' =
      (v : Value) × (stop ≡ none)
      × (f ≡ false)
      × (w'.app ≡ w.app)
      × (Client.ack D b w.db ≡ (ok v, w'.db))

  ended :
      (stop : Option Exn) (f : Bool) (w w' : World D.State E)
      → follow (finish D b) (elim stop [ none ↦ ok f | some x ↦ err x ]) w ≡ (ok true, w')
      → Ended stop f w w'
  unfolding finish
  ended (some x) f w w' h = absurd (cc)
  ended none true w w' h = absurd (cc)
  ended none false w w' h = let (r, s) = Client.ack D b w.db in replied r s refl h
    where
      replied :
          (r : Result Value) (s : D.State)
          → Client.ack D b w.db ≡ (r, s)
          → follow (λ v. pure true) r (record w { db = s }) ≡ (ok true, w')
          → Ended none false w w'
      replied (ok v) s e g = (v, refl, refl, ground arith, ground arith)
      replied (err x) s e g = absurd (cc)

module _ (D : Driver) (calm : IsCalm D) {E : Type 0} (c : Consumer E) (m : Message)
    (ms : List Message) (w w' : World D.State E) where
  -- If no interrupt arrives in a statement, the loop over a batch reports success in a world exactly if
  -- the batch is settled there: every handler ran through, every nack succeeded, and then the ack.
  pub process-Settled : (process D c (m ∷ ms) w ≡ (ok true, w')) ↔ Settled D c m ms w w'
  unfolding process finish
  process-Settled = rw (dispatch-eq-carry_out D calm c m.batch_id (m ∷ ms) false w) (to, from)
    where
      to :
          follow
              (finish D m.batch_id)
              (carry_out D c m.batch_id (plan c (m ∷ ms) w.app) false w.db).0
              (carry_out D c m.batch_id (plan c (m ∷ ms) w.app) false w.db).1
            ≡ (ok true, w')
          → Settled D c m ms w w'
      to h =
          let p = plan c (m ∷ ms) w.app in
          let (f, s) = nack_all D c m.batch_id p.nacks false w.db in
          let (v, stop, flag, app, acked) =
            ended D m.batch_id p.stop f (record { db = s; app = p.app }) w' h in
          record {
            runs_through = stop;
            handled = app;
            between = s;
            nacked = nack_all-false D c m.batch_id p.nacks false w.db flag;
            reply = v;
            acked = acked;
          }

      from :
          Settled D c m ms w w'
          → follow
              (finish D m.batch_id)
              (carry_out D c m.batch_id (plan c (m ∷ ms) w.app) false w.db).0
              (carry_out D c m.batch_id (plan c (m ∷ ms) w.app) false w.db).1
            ≡ (ok true, w')
      from st =
          let e = AllNacked-nack_all D c m.batch_id _ w.db st.between st.nacked in
          rw (e, st.runs_through, ap (λ (x : Bool × D.State). x.0) e)
            (rw st.acked (λ i. (ok true, record w' { app = sym st.handled i })))

module _ (D : Driver) (calm : IsCalm D) {E : Type 0} (c : Consumer E) where
  -- If no handler stops the loop and some nack fails, the batch is not acked: the loop reports no
  -- success, and the nacks of the plan are all that was sent.
  pub process_unacked :
      (m : Message) (ms : List Message) (w : World D.State E)
      → (plan c (m ∷ ms) w.app).stop ≡ none
      → (nack_all D c m.batch_id (plan c (m ∷ ms) w.app).nacks false w.db).0 ≡ true
      → process D c (m ∷ ms) w ≡ (
        ok false,
        record {
          db = (nack_all D c m.batch_id (plan c (m ∷ ms) w.app).nacks false w.db).1;
          app = (plan c (m ∷ ms) w.app).app;
        },
      )
  unfolding process finish
  process_unacked m ms w through failed =
      rw (dispatch-eq-carry_out D calm c m.batch_id (m ∷ ms) false w, through, failed) refl
