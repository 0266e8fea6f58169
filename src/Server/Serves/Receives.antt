-- ===== src/Server/Serves/Receives.antt =====
-- A `receive` of the client at the server, as `receive` of sql/pgque.sql.
use mathlib.Core.Path.{subst}
use pg_que.Base.{Option}
use pg_que.Exec.{err}
use pg_que.Base.{ℕ, String, ◌≡◌, refl, sym, ap, ◌∙◌, some, List, [], ◌∷◌, map}
use pg_que.Value.{Value, nat, opaque, optional_text}
use pg_que.Exec.{Result, ok, follow_ok, raise, handled, lift}
use pg_que.Types.{Message, message_of_row, messages_of_rows}
use pg_que.Client
use pg_que.Client.{rewrap, first_column}
use pg_que.Client.Requests.{receive_query}
use pg_que.Server.BatchSql.{Event}
use pg_que.Server.Tables.{Db}
use pg_que.Server.Batches.{message_row, optional_nat, next_batch, batch_rows}
use pg_que.Server.Batches.Received.{Received, refused, empty, delivered, receive-Received}
use pg_que.Driver.{Driver, Query}
use pg_que.Server.Serves.{Serves}

-- The message that the client makes of a row.
abbrev pub message : ℕ → Event → Message
message batch_id ev = record {
  msg_id = nat ev.ev_id;
  batch_id = nat batch_id;
  type = optional_text ev.ev_type;
  payload = optional_text ev.ev_data;
  retry_count = optional_nat ev.ev_retry;
  created_at = opaque ev.ev_time;
  extra1 = optional_text ev.ev_extra1;
  extra2 = optional_text ev.ev_extra2;
  extra3 = optional_text ev.ev_extra3;
  extra4 = optional_text ev.ev_extra4;
}

messages_of_rows-map :
    (batch_id : ℕ) (evs : List Event)
    → messages_of_rows (map (message_row batch_id) evs) ≡ ok (map (message batch_id) evs)
unfolding messages_of_rows message_of_row
messages_of_rows-map batch_id [] = refl
messages_of_rows-map batch_id (ev ∷ evs) = rw (messages_of_rows-map batch_id evs) refl

pub ok-injective {ℓ} : {A : Type ℓ} {a b : A} → Path (Result A) (ok a) (ok b) → a ≡ b
ok-injective e = cc

-- A statement of the client that returns rows.
pub run_ok :
    (D : Driver) (q : Query) (operation : Option String) (limit : Option ℕ)
    (rows : List (List Value)) (s s' : D.State)
    → Client.run D q operation limit s ≡ (ok rows, s')
    → D.execute q s ≡ (ok rows, s')
unfolding Client.run
run_ok D q operation limit rows s s' h = by_result (D.execute q s).0 (D.execute q s).1 h
  where
    by_result :
        (r : Result (List (List Value))) (t : D.State)
        → handled (λ e. raise (rewrap operation limit e)) r t ≡ (ok rows, s')
        → Path (Result (List (List Value)) × D.State) (r, t) (ok rows, s')
    by_result (ok rs) t k = k
    by_result (err e) t k = absurd (cc)

module _ (D : Driver) (V : Serves D) (s : D.State) where
  -- A `receive` that returns messages returns all those of the batch that `next_batch` opens.
  pub record IsReceived (queue consumer : String) (ms : List Message) (s' : D.State) : Type 0 where
    pub batch_id : ℕ
    pub first : Event
    pub rest : List Event
    pub given : next_batch queue consumer (V.tables s) ≡ (ok (some batch_id), V.tables s')
    pub rows : batch_rows (V.tables s') batch_id ≡ some (first ∷ rest)
    pub messages : ms ≡ map (message batch_id) (first ∷ rest)

  from_receive :
      (queue consumer : String) (m : Message) (ms : List Message) (s' : D.State)
      (rows : List (List Value))
      → {r : Result (List (List Value)) × Db} → Received (V.tables s) queue consumer r
      → r ≡ (ok rows, V.tables s')
      → messages_of_rows rows ≡ ok (m ∷ ms)
      → IsReceived queue consumer (m ∷ ms) s'
  unfolding messages_of_rows
  from_receive queue consumer m ms s' rows (refused e db') h k = absurd (cc)
  from_receive queue consumer m ms s' rows (empty db') h k =
      let none_there : messages_of_rows [] ≡ ok (m ∷ ms) =
        ap messages_of_rows (ok-injective (ap (λ x. x.0) h)) ∙ k in
      absurd (cc)
  from_receive queue consumer m ms s' rows (delivered batch_id ev evs db' given found) h k =
      let left : db' ≡ V.tables s' = ap (λ x. x.1) h in
      record {
        batch_id = batch_id;
        first = ev;
        rest = evs;
        given = given ∙ ap (λ d. (ok (some batch_id), d)) left;
        rows = subst (λ d. batch_rows d batch_id ≡ some (ev ∷ evs)) left found;
        messages = ok-injective (
            sym k
            ∙ ap messages_of_rows (sym (ok-injective (ap (λ x. x.0) h)))
            ∙ messages_of_rows-map batch_id (ev ∷ evs));
      }

  pub receive-IsReceived :
      (queue consumer : String) (max_messages : ℕ) (m : Message) (ms : List Message) (s' : D.State)
      → Client.receive D queue consumer max_messages s ≡ (ok (m ∷ ms), s')
      → IsReceived queue consumer (m ∷ ms) s'
  unfolding Client.receive
  receive-IsReceived queue consumer max_messages m ms s' h =
      let q = receive_query queue consumer max_messages in
      let (r, s1) = Client.run D q (some "receive") (some max_messages) s in
      let (rows, ran, rest) = follow_ok (λ rows. lift (messages_of_rows rows)) r s1 (m ∷ ms) s' h in
      let same : s1 ≡ s' = ap (λ x. x.1) rest in
      let executed =
        run_ok D q (some "receive") (some max_messages) rows s s' (λ i. (ran i, same i)) in
      from_receive queue consumer m ms s' rows
        (receive-Received (V.tables s) queue consumer max_messages)
        (V.received queue consumer max_messages rows s s' executed) (ap (λ x. x.0) rest)
