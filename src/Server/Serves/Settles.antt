-- ===== src/Server/Serves/Settles.antt =====
-- A `nack` and an `ack` of the client at the server, as the functions of sql/pgque.sql.
use Prim.Native.String.{◌++◌ as ◌<>◌}
use pg_que.Base.{ℕ, String, ◌≡◌, refl, sym, ap, ◌∙◌, Option, none, some, List, [], ◌∷◌}
use pg_que.Base.Texts.{show}
use pg_que.Value.{Value, nat, str, opaque, is_container, optional_text}
use pg_que.Exec.{ok, follow, follow_ok, pure, lift}
use pg_que.Client
use pg_que.Client.{rewrap, first_column}
use pg_que.Client.Requests.{ack_query, encode_container, nack_request, nack_text}
use pg_que.Driver.{Driver, Query}
use pg_que.Server.BatchSql.{Event}
use pg_que.Server.Batches.{optional_nat, finish_batch, ack}
use pg_que.Server.Nack.{nack}
use pg_que.Server.Serves.{Serves}
use pg_que.Server.Serves.Receives.{run_ok, message}

encode_text : (d : Option String) → encode_container (optional_text d) ≡ ok (optional_text d)
unfolding encode_container is_container
encode_text none = refl
encode_text (some t) = refl

-- The query that `nack` sends for an event's message.
abbrev nack_query : ℕ → Event → ℕ → Option String → Query
nack_query batch_id ev after reason = record {
  text = nack_text;
  params =
      nat batch_id
      ∷ nat ev.ev_id
      ∷ nat batch_id
      ∷ optional_text ev.ev_type
      ∷ optional_text ev.ev_data
      ∷ optional_nat ev.ev_retry
      ∷ opaque ev.ev_time
      ∷ optional_text ev.ev_extra1
      ∷ optional_text ev.ev_extra2
      ∷ optional_text ev.ev_extra3
      ∷ optional_text ev.ev_extra4
      ∷ str (show after <> " seconds")
      ∷ optional_text reason
      ∷ [];
}

nack-eq :
    (D : Driver) (s : D.State) (batch_id : ℕ) (ev : Event) (after : ℕ) (reason : Option String)
    → Client.nack D (nat batch_id) (message batch_id ev) after reason s ≡ (
        let (r, s1) = Client.run D (nack_query batch_id ev after reason) none none s in
        follow (λ rows. pure tt) r s1)
unfolding Client.nack nack_request
nack-eq D s batch_id ev after reason = rw (Client.nack, nack_request, encode_text ev.ev_data) refl

module _ (D : Driver) (V : Serves D) (s : D.State) where
  -- A `nack` of an event's message that returns: so did the function, with some delay and reason.
  pub record IsNacked (batch_id id : ℕ) (s' : D.State) : Type 0 where
    pub seconds : ℕ
    pub reason : Option String
    pub reply : ℕ
    pub done : nack batch_id id seconds reason (V.tables s) ≡ (ok reply, V.tables s')

  pub nack-IsNacked :
      (batch_id : ℕ) (ev : Event) (after : ℕ) (reason : Option String) (s' : D.State)
      → Client.nack D (nat batch_id) (message batch_id ev) after reason s ≡ (ok tt, s')
      → IsNacked batch_id ev.ev_id s'
  nack-IsNacked batch_id ev after reason s' h =
      let q = nack_query batch_id ev after reason in
      let (r, s1) = Client.run D q none none s in
      let (rows, ran, rest) =
        follow_ok (λ rows. pure tt) r s1 tt s' (sym (nack-eq D s batch_id ev after reason) ∙ h) in
      let same : s1 ≡ s' = ap (λ x. x.1) rest in
      let (seconds, why, n, done) =
        V.nacked batch_id ev.ev_id _ rows s s'
          (run_ok D q none none rows s s' (λ i. (ran i, same i))) in
      record { seconds = seconds; reason = why; reply = n; done = done }

  -- An `ack` of a batch that returns: so did `finish_batch`.
  pub record IsAcked (batch_id : ℕ) (s' : D.State) : Type 0 where
    pub rows : List (List Value)
    pub executed : D.execute (ack_query (nat batch_id)) s ≡ (ok rows, s')
    pub reply : ℕ
    pub done : finish_batch batch_id (V.tables s) ≡ (ok reply, V.tables s')

  pub ack-IsAcked :
      (batch_id : ℕ) (v : Value) (s' : D.State)
      → Client.ack D (nat batch_id) s ≡ (ok v, s')
      → IsAcked batch_id s'
  unfolding Client.ack Client.call ack
  ack-IsAcked batch_id v s' h =
      let q = ack_query (nat batch_id) in
      let (r, s1) = Client.run D q none none s in
      let (rows, ran, rest) = follow_ok (λ rows. lift (first_column rows)) r s1 v s' h in
      let same : s1 ≡ s' = ap (λ x. x.1) rest in
      let executed = run_ok D q none none rows s s' (λ i. (ran i, same i)) in
      let (n, done) = V.acked batch_id rows s s' executed in
      record { rows = rows; executed = executed; reply = n; done = done }
