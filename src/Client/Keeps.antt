-- ===== src/Client/Keeps.antt =====
-- What every statement keeps, the methods of clients/python/pgque/client.py keep.
use pg_que.Base.{ℕ, String, Option, none}
use pg_que.Value.{Value}
use pg_que.Errors.{Exn}
use pg_que.Exec.{Result, ok, err, raise, lift, pure, handled, follow, ◌>>=◌, ◌>>◌}
use pg_que.Types.{Message}
use pg_que.Driver.{Driver, Query}
use pg_que.Client.{rewrap, run, call, nack, ack, receive, receive_coop}
use pg_que.Client.Requests.{nack_request}

module _ (D : Driver) (P : D.State → Type 0)
    (execute_keeps : (q : Query) (s : D.State) → P s → P (D.execute q s).1) where
  handled_keeps :
      {A : Type 0} (f : Exn → Exn) (r : Result A) (s : D.State)
      → P s
      → P (handled (λ x. raise (f x)) r s).1
  handled_keeps f (ok a) s h = h
  handled_keeps f (err x) s h = h

  run_keeps :
      (q : Query) (operation : Option String) (limit : Option ℕ) (s : D.State)
      → P s
      → P (run D q operation limit s).1
  unfolding run
  run_keeps q operation limit s h =
      let (r, s') = D.execute q s in
      handled_keeps (rewrap operation limit) r s' (execute_keeps q s h)

  lift_keeps :
      {A B : Type 0} (f : A → Result B) (r : Result A) (s : D.State)
      → P s
      → P (follow (λ a. lift (f a)) r s).1
  lift_keeps f (ok a) s h = h
  lift_keeps f (err x) s h = h

  call_keeps : (q : Query) (s : D.State) → P s → P (call D q s).1
  unfolding call
  call_keeps q s h =
      let (r, s') = run D q none none s in lift_keeps _ r s' (run_keeps q none none s h)

  pub ack_keeps : (b : Value) (s : D.State) → P s → P (ack D b s).1
  unfolding ack
  ack_keeps b s h = call_keeps _ s h

  pub nack_keeps :
      (b : Value) (m : Message) (after : ℕ) (reason : Option String) (s : D.State)
      → P s
      → P (nack D b m after reason s).1
  unfolding nack
  nack_keeps b m after reason s h = sent (nack_request b m after reason)
    where
      sent : (r : Result Query) → P ((lift r >>= λ q. run D q none none >> pure tt) s).1
      sent (err x) = h
      sent (ok q) =
          let (r, s') = run D q none none s in
          lift_keeps (λ rows. ok tt) r s' (run_keeps q none none s h)

  pub receive_keeps :
      (queue consumer : String) (n : ℕ) (s : D.State) → P s → P (receive D queue consumer n s).1
  unfolding receive
  receive_keeps queue consumer n s h =
      let (r, s') = run D _ _ _ s in lift_keeps _ r s' (run_keeps _ _ _ s h)

  pub receive_coop_keeps :
      (queue consumer sub : String) (n : ℕ) (dead : Option String) (s : D.State)
      → P s
      → P (receive_coop D queue consumer sub n dead s).1
  unfolding receive_coop
  receive_coop_keeps queue consumer sub n dead s h =
      let (r, s') = run D _ _ _ s in lift_keeps _ r s' (run_keeps _ _ _ s h)
