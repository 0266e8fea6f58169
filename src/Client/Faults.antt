-- ===== src/Client/Faults.antt =====
-- Every method of `PgqueClient` turns the errors of psycopg into errors of pgque.
use pg_que.Base.{ℕ, String, ◌≡◌, refl, Bool, false, Option, none, List, [], ◌∷◌, arith}
use pg_que.Value.{Value, event}
use pg_que.Errors.{Exn, database, is_database}
use pg_que.Exec.{Result, Exec, ok, err, pure, raise, lift, handled, follow, ◌>>=◌}
use pg_que.Types.{Message, message_of_row, messages_of_rows}
use pg_que.Driver.{Driver, Query}
use pg_que.Client
use pg_que.Client.{rewrap, first_column, run, call}
use pg_que.Client.Requests.{
  encode_container, encode_payload, encode_payloads, send_request, send_batch_request, nack_request,
  list_of,
}

abbrev pub raises_database : {A : Type 0} → Result A → Bool
raises_database (ok a) = false
raises_database (err e) = is_database e

-- No error of psycopg comes out.
record IsWrapped {S A : Type 0} (m : Exec S A) : Type 0 where
  at : (s : S) (e : Exn) → (m s).0 ≡ err e → is_database e ≡ false

module _ {S A : Type 0} where
  lift-IsWrapped :
      (r : Result A) → ((e : Exn) → r ≡ err e → is_database e ≡ false) → IsWrapped {S = S} (lift r)
  lift-IsWrapped r h = record { at = λ s e g. h e g }

  pure-IsWrapped : (a : A) → IsWrapped {S = S} (pure a)
  pure-IsWrapped a = record { at = λ s e g. absurd (cc) }

  IsWrapped-raises_database : {m : Exec S A} (s : S) → IsWrapped m → raises_database (m s).0 ≡ false
  IsWrapped-raises_database {m} s h = by_result (m s).0 (h.at s)
    where
      by_result :
          (r : Result A)
          → ((e : Exn) → r ≡ err e → is_database e ≡ false)
          → raises_database r ≡ false
      by_result (ok a) f = refl
      by_result (err e) f = f e refl

module _ {S A B : Type 0} where
  follow_wrapped :
      (f : A → Exec S B) (r : Result A) (s : S) (e : Exn)
      → ((a : A) → IsWrapped (f a))
      → (r ≡ err e → is_database e ≡ false)
      → (follow f r s).0 ≡ err e
      → is_database e ≡ false
  follow_wrapped f (ok a) s e hf hr g = (hf a).at s e g
  follow_wrapped f (err x) s e hf hr g = hr (ground arith)

  bind-IsWrapped :
      (m : Exec S A) (f : A → Exec S B)
      → IsWrapped m
      → ((a : A) → IsWrapped (f a))
      → IsWrapped (m >>= f)
  bind-IsWrapped m f hm hf = record {
    at = λ s e g. let (r, s') = m s in follow_wrapped f r s' e hf (hm.at s e) g;
  }

rewrap-database :
    (operation : Option String) (limit : Option ℕ) (x : Exn)
    → is_database (rewrap operation limit x) ≡ false
unfolding rewrap is_database
rewrap-database operation limit (database e) = refl
rewrap-database operation limit _ = refl

first_column-is_database :
    (rows : List (List Value)) (e : Exn) → first_column rows ≡ err e → is_database e ≡ false
unfolding first_column is_database
first_column-is_database rows e h = ground arith

list_of-is_database : (v : Value) (e : Exn) → list_of v ≡ err e → is_database e ≡ false
unfolding list_of is_database
list_of-is_database v e h = ground arith

encode_payload-is_database :
    (v : Value) (e : Exn) → encode_payload v ≡ err e → is_database e ≡ false
unfolding encode_payload encode_container is_database
encode_payload-is_database v e h = ground arith

send_request-is_database :
    (queue : String) (p : Value) (type : String) (e : Exn)
    → send_request queue p type ≡ err e
    → is_database e ≡ false
unfolding send_request
send_request-is_database queue (event v t) type e h = ground (arith, encode_payload-is_database v e)
send_request-is_database queue p type e h = ground (arith, encode_payload-is_database p e)

encode_payloads-is_database :
    (ps : List Value) (e : Exn) → encode_payloads ps ≡ err e → is_database e ≡ false
unfolding encode_payloads
encode_payloads-is_database [] e h = cc
encode_payloads-is_database (p ∷ ps) e h =
    ground (arith, encode_payload-is_database p e, encode_payloads-is_database ps e)

send_batch_request-is_database :
    (queue type : String) (ps : List Value) (e : Exn)
    → send_batch_request queue type ps ≡ err e
    → is_database e ≡ false
unfolding send_batch_request
send_batch_request-is_database queue type ps e h = ground (arith, encode_payloads-is_database ps e)

nack_request-is_database :
    (b : Value) (m : Message) (after : ℕ) (reason : Option String) (e : Exn)
    → nack_request b m after reason ≡ err e
    → is_database e ≡ false
unfolding nack_request encode_container is_database
nack_request-is_database b m after reason e h = ground arith

message_of_row-is_database :
    (r : List Value) (e : Exn) → message_of_row r ≡ err e → is_database e ≡ false
unfolding message_of_row is_database
message_of_row-is_database (r0 ∷ r1 ∷ r2 ∷ r3 ∷ r4 ∷ r5 ∷ r6 ∷ r7 ∷ r8 ∷ r9 ∷ r) e h = absurd (cc)
message_of_row-is_database _ e h = ground arith

messages_of_rows-is_database :
    (rows : List (List Value)) (e : Exn) → messages_of_rows rows ≡ err e → is_database e ≡ false
unfolding messages_of_rows
messages_of_rows-is_database [] e h = cc
messages_of_rows-is_database (r ∷ rows) e h =
    ground (arith, message_of_row-is_database r e, messages_of_rows-is_database rows e)

module _ (D : Driver) where
  handled_wrapped :
      (operation : Option String) (limit : Option ℕ) (r : Result (List (List Value))) (s : D.State)
      (e : Exn)
      → (handled {A = List (List Value)} (λ x. raise (rewrap operation limit x)) r s).0 ≡ err e
      → is_database e ≡ false
  handled_wrapped operation limit (ok a) s e h = absurd (cc)
  handled_wrapped operation limit (err x) s e h = ground (arith, rewrap-database operation limit x)

  run-IsWrapped :
      (q : Query) (operation : Option String) (limit : Option ℕ)
      → IsWrapped (run D q operation limit)
  unfolding run
  run-IsWrapped q operation limit = record {
    at = λ s e h. let (r, s') = D.execute q s in handled_wrapped operation limit r s' e h;
  }

  call-IsWrapped : (q : Query) → IsWrapped (call D q)
  unfolding call
  call-IsWrapped q =
      bind-IsWrapped (run D q none none) _ (run-IsWrapped q none none)
        (λ rows. lift-IsWrapped _ (first_column-is_database rows))

  send-IsWrapped : (queue type : String) (p : Value) → IsWrapped (Client.send D queue p type)
  unfolding Client.send
  send-IsWrapped queue type p =
      bind-IsWrapped (lift (send_request queue p type)) _
        (lift-IsWrapped _ (send_request-is_database queue p type)) call-IsWrapped

  send_batch-IsWrapped :
      (queue type : String) (ps : List Value) → IsWrapped (Client.send_batch D queue type ps)
  unfolding Client.send_batch
  send_batch-IsWrapped queue type ps =
      bind-IsWrapped (lift (send_batch_request queue type ps)) _
        (lift-IsWrapped _ (send_batch_request-is_database queue type ps))
        λ q.
          bind-IsWrapped (call D q) _ (call-IsWrapped q)
            λ v. lift-IsWrapped _ (list_of-is_database v)

  nack-IsWrapped :
      (b : Value) (m : Message) (after : ℕ) (reason : Option String)
      → IsWrapped (Client.nack D b m after reason)
  unfolding Client.nack
  nack-IsWrapped b m after reason =
      bind-IsWrapped (lift (nack_request b m after reason)) _
        (lift-IsWrapped _ (nack_request-is_database b m after reason))
        λ q.
          bind-IsWrapped (run D q none none) _ (run-IsWrapped q none none) λ rows. pure-IsWrapped tt

  messages-IsWrapped :
      (q : Query) (operation : Option String) (limit : Option ℕ)
      → IsWrapped (run D q operation limit >>= λ rows. lift (messages_of_rows rows))
  messages-IsWrapped q operation limit =
      bind-IsWrapped (run D q operation limit) _ (run-IsWrapped q operation limit)
        λ rows. lift-IsWrapped _ (messages_of_rows-is_database rows)

  -- No method of the client lets an error of psycopg out: each comes out as an error of pgque.
  pub client-raises_database :
      (queue consumer sub type : String) (p b : Value) (ps : List Value) (m : Message) (n : ℕ)
      (text : Option String) (s : D.State)
      → (raises_database (Client.send D queue p type s).0 ≡ false)
        × (raises_database (Client.send_batch D queue type ps s).0 ≡ false)
        × (raises_database (Client.subscribe D queue consumer s).0 ≡ false)
        × (raises_database (Client.unsubscribe D queue consumer s).0 ≡ false)
        × (raises_database (Client.receive D queue consumer n s).0 ≡ false)
        × (raises_database (Client.ack D b s).0 ≡ false)
        × (raises_database (Client.nack D b m n text s).0 ≡ false)
        × (raises_database (Client.force_next_tick D queue s).0 ≡ false)
        × (raises_database (Client.force_tick D queue s).0 ≡ false)
        × (raises_database (Client.ticker D queue s).0 ≡ false)
        × (raises_database (Client.ticker_all D s).0 ≡ false)
        × (raises_database (Client.subscribe_subconsumer D queue consumer sub s).0 ≡ false)
        × (raises_database (Client.unsubscribe_subconsumer D queue consumer sub n s).0 ≡ false)
        × (raises_database (Client.receive_coop D queue consumer sub n text s).0 ≡ false)
        × (raises_database (Client.touch_subconsumer D queue consumer sub s).0 ≡ false)
  unfolding Client.subscribe Client.unsubscribe Client.receive Client.ack Client.force_next_tick
      Client.force_tick Client.ticker Client.ticker_all Client.subscribe_subconsumer
      Client.unsubscribe_subconsumer Client.receive_coop Client.touch_subconsumer
  client-raises_database queue consumer sub type p b ps m n text s = (
    IsWrapped-raises_database s (send-IsWrapped queue type p),
    IsWrapped-raises_database s (send_batch-IsWrapped queue type ps),
    IsWrapped-raises_database s (call-IsWrapped _),
    IsWrapped-raises_database s (call-IsWrapped _),
    IsWrapped-raises_database s (messages-IsWrapped _ _ _),
    IsWrapped-raises_database s (call-IsWrapped _),
    IsWrapped-raises_database s (nack-IsWrapped b m n text),
    IsWrapped-raises_database s (call-IsWrapped _),
    IsWrapped-raises_database s (call-IsWrapped _),
    IsWrapped-raises_database s (call-IsWrapped _),
    IsWrapped-raises_database s (call-IsWrapped _),
    IsWrapped-raises_database s (call-IsWrapped _),
    IsWrapped-raises_database s (call-IsWrapped _),
    IsWrapped-raises_database s (messages-IsWrapped _ _ _),
    IsWrapped-raises_database s (call-IsWrapped _),
  )
