-- ===== src/Client/Raises.antt =====
-- Which exceptions the methods of clients/python/pgque/client.py raise.
use pg_que.Base.{ℕ, String, ◌≡◌, refl, true, Option, none, arith}
use pg_que.Value.{Value}
use pg_que.Errors.{Exn, database, is_exception}
use pg_que.Exec.{Result, ok, err, raise, lift, pure, handled, ◌>>=◌, ◌>>◌}
use pg_que.Types.{Message}
use pg_que.Driver.{Driver, Query}
use pg_que.Driver.Assumptions.{IsCalm}
use pg_que.Client.{rewrap, run, nack}
use pg_que.Client.Requests.{nack_request, encode_container}

rewrap-is_exception :
    (operation : Option String) (limit : Option ℕ) (e : Exn)
    → is_exception e ≡ true
    → is_exception (rewrap operation limit e) ≡ true
unfolding rewrap is_exception
rewrap-is_exception operation limit (database e) h = refl
rewrap-is_exception operation limit _ h = h

nack_request-is_exception :
    (b : Value) (m : Message) (after : ℕ) (reason : Option String) (e : Exn)
    → nack_request b m after reason ≡ err e
    → is_exception e ≡ true
unfolding nack_request encode_container is_exception
nack_request-is_exception b m after reason e h = ground arith

caught :
    {S A : Type 0} {e : Exn} (operation : Option String) (limit : Option ℕ) (r : Result A) (s : S)
    → (handled {A = A} (λ x. raise (rewrap operation limit x)) r s).0 ≡ err e
    → ((x : Exn) → r ≡ err x → is_exception x ≡ true)
    → is_exception e ≡ true
caught operation limit (ok a) s h k = cc
caught operation limit (err x) s h k =
    ground (arith, rewrap-is_exception operation limit x (k x refl))

module _ (D : Driver) (calm : IsCalm D) where
  run-is_exception :
      (q : Query) (operation : Option String) (limit : Option ℕ) (s : D.State) (e : Exn)
      → (run D q operation limit s).0 ≡ err e
      → is_exception e ≡ true
  unfolding run
  run-is_exception q operation limit s e h =
      caught operation limit (D.execute q s).0 (D.execute q s).1 h (calm.raises q s)

  pub nack-is_exception :
      (b : Value) (m : Message) (after : ℕ) (reason : Option String) (s : D.State) (e : Exn)
      → (nack D b m after reason s).0 ≡ err e
      → is_exception e ≡ true
  unfolding nack
  nack-is_exception b m after reason s e h =
      sent (nack_request b m after reason) h (nack_request-is_exception b m after reason)
    where
      sent :
          (r : Result Query)
          → ((lift r >>= λ q. run D q none none >> pure tt) s).0 ≡ err e
          → ((x : Exn) → r ≡ err x → is_exception x ≡ true)
          → is_exception e ≡ true
      sent (err x) g k = ground (arith, k x refl)
      sent (ok q) g k =
          let known = run-is_exception q none none s e in
          let (r, s') = run D q none none s in ground arith
