-- ===== src/Consumer/Dispatch.antt =====
-- The loop of `_poll_once` is its two-pass description.
use pg_que.Base.{
  String, ◌≡◌, refl, Bool, true, false, Option, none, some, List, [], ◌∷◌, ◌||◌, not, str_eq,
  if◌then◌else◌, Bool-cases, inl, inr,
}
use pg_que.Value.{Value}
use pg_que.Errors.{Exn, is_exception}
use pg_que.Exec.{Result, ok, err, is_ok, pure, handled, catching, ◌>>=◌, lift, ◌>>◌, follow}
use pg_que.Types.{Message}
use pg_que.Driver.{Driver}
use pg_que.Driver.Assumptions.{IsCalm}
use pg_que.Client
use pg_que.Client.Raises.{nack-is_exception}
use pg_que.Consumer.{
  Consumer, Handler, World, handler_for, try_nack, dispatch_one, dispatch, except_exception,
  no_handler_reason, on_app,
}
use pg_que.Consumer.Plan.{
  Plan, plan, judge, nack_all, Verdict, verdict_of, settled, to_nack, stopped, extend,
}

-- A nack result inside `try … except Exception`.
caught_nack :
    {S E : Type 0} (r : Result (Unit {0})) (w : World S E)
    → ((x : Exn) → r ≡ err x → is_exception x ≡ true)
    → (let (r', w') = follow (λ u. pure false) r w in handled (except_exception (pure true)) r' w')
      ≡ (ok (not (is_ok r)), w)
caught_nack (ok u) w h = refl
caught_nack (err x) w h = rw (h x refl) refl

or_false : (b : Bool) → (b || false) ≡ b
or_false true = refl
or_false false = refl

module _ (D : Driver) {E : Type 0} (c : Consumer E) (b : Value) where
  -- What the loop does on a verdict.
  abbrev perform : Message → Verdict → World D.State E → Result Bool × World D.State E
  perform m settled w = (ok false, w)
  perform m (to_nack reason) w =
      let (r, s) = Client.nack D b m c.retry_after reason w.db in
      (ok (not (is_ok r)), record w { db = s })
  perform m (stopped x) w = (err x, w)

  -- What a plan leaves: the result of the loop, and the world.
  abbrev pub carry_out : Plan E → Bool → D.State → Result Bool × World D.State E
  carry_out p failed s =
      let (f, s') = nack_all D c b p.nacks failed s in
      (elim p.stop [ none ↦ ok f | some x ↦ err x ], record { db = s'; app = p.app })

module _ (D : Driver) (calm : IsCalm D) {E : Type 0} (c : Consumer E) (b : Value) where
  try_nack_lem :
      (m : Message) (reason : Option String) (w : World D.State E)
      → try_nack D c b m reason w ≡ perform D c b m (to_nack reason) w
  unfolding try_nack
  try_nack_lem m reason w =
      let (r, s) = Client.nack D b m c.retry_after reason w.db in
      caught_nack r (record w { db = s }) (nack-is_exception D calm b m c.retry_after reason w.db)

  -- A handler that has returned or raised.
  after_handler :
      (m : Message) (r : Result (Unit {0})) (w : World D.State E)
      → (let (r', w') = follow (λ u. pure false) r w in
          handled (except_exception (try_nack D c b m none)) r' w')
        ≡ perform D c b m (verdict_of r) w
  after_handler m (ok u) w = refl
  after_handler m (err x) w = elim (Bool-cases (is_exception x)) [
    | inl yes_it_is ↦ rw yes_it_is (try_nack_lem m none w)
    | inr not_it_is ↦ rw not_it_is refl
  ]

  after_lookup :
      (m : Message) (found : Result (Option (Handler E))) (w : World D.State E)
      → (lift found >>= λ handler. elim handler [
        | none ↦
            if str_eq c.unknown_handler_policy "ack"
            then pure false
            else try_nack D c b m (no_handler_reason m)
        | some h ↦ catching (do on_app (h m); pure false) (except_exception (try_nack D c b m none))
      ])
          w
        ≡ (let (v, e) = judge c m found w.app in perform D c b m v (record w { app = e }))
  unfolding judge
  after_lookup m (err x) w = refl
  after_lookup m (ok none) w = elim (Bool-cases (str_eq c.unknown_handler_policy "ack")) [
    | inl ack ↦ rw ack refl
    | inr nack ↦ rw nack (try_nack_lem m (no_handler_reason m) w)
  ]
  after_lookup m (ok (some h)) w =
      let (r, e) = h m w.app in after_handler m r (record w { app = e })

  dispatch_one_lem :
      (m : Message) (w : World D.State E)
      → dispatch_one D c b m w ≡ (
          let (v, e) = judge c m (handler_for c m.type) w.app in
          perform D c b m v (record w { app = e }))
  unfolding dispatch_one
  dispatch_one_lem m w = after_lookup m (handler_for c m.type) w

  after_verdict :
      (m : Message) (ms : List Message) (failed : Bool) (v : Verdict) (w : World D.State E)
      → ((f : Bool) (w' : World D.State E)
          → dispatch D c b ms f w' ≡ carry_out D c b (plan c ms w'.app) f w'.db)
      → (perform D c b m v >>= λ f. dispatch D c b ms (failed || f)) w
        ≡ carry_out D c b (extend m v w.app (plan c ms w.app)) failed w.db
  unfolding nack_all
  after_verdict m ms failed settled w ih = rw or_false (ih failed w)
  after_verdict m ms failed (to_nack reason) w ih = ih _ _
  after_verdict m ms failed (stopped x) w ih = refl

  -- From any flag and world, the loop runs the handlers, nacks and stops as its plan says.
  pub dispatch-eq-carry_out :
      (ms : List Message) (failed : Bool) (w : World D.State E)
      → dispatch D c b ms failed w ≡ carry_out D c b (plan c ms w.app) failed w.db
  unfolding dispatch plan nack_all
  dispatch-eq-carry_out [] failed w = refl
  dispatch-eq-carry_out (m ∷ ms) failed w =
      let (v, e) = judge c m (handler_for c m.type) w.app in
      rw (dispatch_one_lem m w)
        (after_verdict m ms failed v (record w { app = e }) (λ f w'. dispatch-eq-carry_out ms f w'))
