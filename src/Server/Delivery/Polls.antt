-- ===== src/Server/Delivery/Polls.antt =====
-- A whole poll at the server, from BEGIN to COMMIT.
use mathlib.Core.Path.{subst}
use pg_que.Base.{ℕ, ◌≡◌, refl, sym, ap, ◌∙◌, Bool, true, none, some, List, [], ◌∷◌, map}
use pg_que.Exec.{Result, ok, err, follow, follow_ok, pure}
use pg_que.Types.{Message}
use pg_que.Client
use pg_que.Consumer.{
  Consumer, World, on_db, end_transaction, transaction, receive_batch, process, poll_block,
  poll_once,
}
use pg_que.Consumer.Plan.{plan}
use pg_que.Server.BatchSql.{Event}
use pg_que.Server.Tables.{Db, Subscription, Role, named, holder}
use pg_que.Server.Batches.{batch_rows, rows_of, finished, next_batch}
use pg_que.Server.Batches.Held.{IsConsistent, Ends, next_batch-IsHeld}
use pg_que.Driver.{Driver}
use pg_que.Driver.Assumptions.{IsCalm}
use pg_que.Server.Serves.{Serves}
use pg_que.Server.Serves.Receives.{message, receive-IsReceived}
use pg_que.Server.Delivery.Parking.{IsOpen, AreOwnIds}
use pg_que.Server.Delivery.Nacks.{AreParked}
use pg_que.Server.Delivery.Moved.{process-IsProcessed}

module _ (D : Driver) (V : Serves D) {E : Type 0} (c : Consumer E) where
  -- A batch has been delivered between two worlds, the one that was open or the one up to the next
  -- tick: all of it was handled, the messages that were not handled well are in the retry queue or
  -- dead, and the consumer is at the end of the batch.
  pub record IsDelivered (w w' : World D.State E) : Type 0 where
    pub batch_id : ℕ
    pub before : Subscription
    pub sub : Subscription
    pub events : List Event
    pub was : named (V.tables w.db) c.queue c.name ≡ some before
    pub same_place : sub.sub_last_tick ≡ before.sub_last_tick
    pub same_id : sub.sub_id ≡ before.sub_id
    pub ends : Ends (V.tables w.db) before sub
    pub rows : rows_of (V.tables w.db) sub ≡ some events
    pub runs_through : (plan c (map (message batch_id) events) w.app).stop ≡ none
    pub handled : w'.app ≡ (plan c (map (message batch_id) events) w.app).app
    pub kept :
        AreParked batch_id sub (V.tables w'.db) (plan c (map (message batch_id) events) w.app).nacks
    pub now : ℕ
    pub moved : named (V.tables w'.db) c.queue c.name ≡ some (finished now sub)

module _ (D : Driver) {E : Type 0} (c : Consumer E) where
  -- Success of a transaction, and its world before the commit.
  ended_true :
      (r : Result Bool) (w w' : World D.State E)
      → end_transaction D r w ≡ (ok true, w')
      → (r ≡ ok true) × (D.commit w.db ≡ (ok tt, w'.db)) × (w.app ≡ w'.app)
  unfolding end_transaction
  ended_true (err e) w w' h = absurd (cc)
  ended_true (ok b) w w' h =
      let (r, s) = D.commit w.db in
      let (u, done, rest) = follow_ok (λ u. pure b) r (record w { db = s }) true w' h in
      (
        ap (λ x. x.0) rest,
        (λ i. (done i, (ap (λ (x : Result Bool × World D.State E). x.1.db) rest) i)),
        ap (λ (x : Result Bool × World D.State E). x.1.app) rest,
      )

  receive_plain :
      (w : World D.State E)
      → c.subconsumer ≡ none
      → receive_batch D c w ≡ on_db (Client.receive D c.queue c.name c.max_messages) w
  unfolding receive_batch
  receive_plain w plain = rw (receive_batch, plain) refl

  -- The parts of a poll that reports success, and the states between them.
  record Parts (w w' : World D.State E) : Type 0 where
    pub opened : D.State
    pub messages : List Message
    pub received : D.State
    pub before_commit : World D.State E
    pub begins : D.begin w.db ≡ (ok tt, opened)
    pub receives : Client.receive D c.queue c.name c.max_messages opened ≡ (ok messages, received)
    pub processes : process D c messages (record w { db = received }) ≡ (ok true, before_commit)
    pub commits : D.commit before_commit.db ≡ (ok tt, w'.db)
    pub same_app : before_commit.app ≡ w'.app

  poll_once-Parts :
      (w w' : World D.State E) → c.subconsumer ≡ none → poll_once D c w ≡ (ok true, w') → Parts w w'
  unfolding poll_once transaction poll_block
  poll_once-Parts w w' plain h =
      let (b, opened) = D.begin w.db in
      let wb : World D.State E = record w { db = opened } in
      let (u, began, after) =
        follow_ok (λ u w. let (r, w') = poll_block D c w in end_transaction D r w') b wb true w'
          h in
      let (r, w2) = poll_block D c wb in
      let (returned, committed, same) = ended_true r w2 w' after in
      let (s0, s1) = Client.receive D c.queue c.name c.max_messages opened in
      let (ms, received, processed) =
        follow_ok (process D c) s0 (record w { db = s1 }) true w2
          (ap (λ (x : Result (List Message) × World D.State E). follow (process D c) x.0 x.1)
              (sym (receive_plain wb plain))
            ∙ (λ i. (returned i, w2))) in
      record {
        opened = opened;
        messages = ms;
        received = s1;
        before_commit = w2;
        begins = λ i. (began i, opened);
        receives = λ i. (received i, s1);
        processes = processed;
        commits = committed;
        same_app = same;
      }

rows_of-held :
    (db : Db) (batch_id : ℕ) (sub : Subscription) (evs : List Event)
    → holder db batch_id ≡ some sub
    → batch_rows db batch_id ≡ some evs
    → rows_of db sub ≡ some evs
unfolding batch_rows
rows_of-held db batch_id sub evs held rows = rw (batch_rows, held) at rows

module _ (D : Driver) (calm : IsCalm D) (V : Serves D) {E : Type 0} (c : Consumer E)
    (w w' : World D.State E) where
  -- If a consumer that is no member of a group polls a server with consistent tables, where it is
  -- subscribed as a normal consumer, the events of the batch that it is given have different numbers,
  -- and the poll reports success, then that batch was delivered: the one that was open, or all that
  -- lies between the consumer's position and the next tick. All of it was handled, every message that
  -- was not handled well is in the retry queue or among the dead letters, and the consumer stands at
  -- the end of the batch.
  pub poll_once-IsDelivered :
      c.subconsumer ≡ none
      → IsConsistent (V.tables w.db)
      → (before : Subscription) → named (V.tables w.db) c.queue c.name ≡ some before
      → before.sub_role ≡ Role.normal
      → ((batch_id : ℕ) (opened : Db) (evs : List Event)
          → next_batch c.queue c.name (V.tables w.db) ≡ (ok (some batch_id), opened)
          → batch_rows opened batch_id ≡ some evs
          → AreOwnIds evs)
      → poll_once D c w ≡ (ok true, w')
      → IsDelivered D V c w w'
  unfolding process
  poll_once-IsDelivered alone consistent before subscribed plain own h =
      let p = poll_once-Parts D c w w' alone h in delivered p p.messages p.receives p.processes
    where
      delivered :
          (p : Parts D c w w') (ms : List Message)
          → Client.receive D c.queue c.name c.max_messages p.opened ≡ (ok ms, p.received)
          → process D c ms (record w { db = p.received }) ≡ (ok true, p.before_commit)
          → IsDelivered D V c w w'
      delivered p [] received processed = absurd (cc)
      delivered p (m ∷ ms) received processed =
          let start : V.tables p.opened ≡ V.tables w.db =
            sym (ap V.tables (ap (λ x. x.1) p.begins)) ∙ V.begun w.db (ap (λ x. x.0) p.begins) in
          let r =
            receive-IsReceived D V p.opened c.queue c.name c.max_messages m ms p.received
              received in
          let given : next_batch c.queue c.name (V.tables w.db)
              ≡ (ok (some r.batch_id), V.tables p.received) =
            ap (next_batch c.queue c.name) (sym start) ∙ r.given in
          let evs = r.first ∷ r.rest in
          let held =
            next_batch-IsHeld (V.tables w.db) c.queue c.name consistent before r.batch_id
              (V.tables p.received) subscribed plain given in
          let rows : rows_of (V.tables w.db) held.sub ≡ some evs =
            sym (held.same_rows held.sub)
            ∙ rows_of-held (V.tables p.received) r.batch_id held.sub evs held.held r.rows in
          let o : IsOpen c.queue c.name r.batch_id held.sub evs (V.tables p.received) = record {
            is = held.is;
            held = held.held;
            rows = r.rows;
          } in
          let done =
            process-IsProcessed D calm V c r.batch_id held.sub r.first r.rest
              (record w { db = p.received }) p.before_commit
              (own r.batch_id (V.tables p.received) evs given r.rows) o held.plain
              (subst
                (λ ms. process D c ms (record w { db = p.received }) ≡ (ok true, p.before_commit))
                r.messages processed) in
          let last : V.tables p.before_commit.db ≡ V.tables w'.db = sym (
            V.committed _ done.rows done.between p.before_commit.db w'.db done.executed
              p.commits) in
          record {
            batch_id = r.batch_id;
            before = held.before;
            sub = held.sub;
            events = evs;
            was = held.was;
            same_place = held.same_place;
            same_id = held.same_id;
            ends = held.ends;
            rows = rows;
            runs_through = done.runs_through;
            handled = sym p.same_app ∙ done.handled;
            kept =
                subst
                  (λ (d : Db).
                    AreParked r.batch_id held.sub d
                      (plan c (map (message r.batch_id) evs) w.app).nacks)
                  last done.kept;
            now = done.now;
            moved =
                subst (λ (d : Db). named d c.queue c.name ≡ some (finished done.now held.sub)) last
                  done.moved;
          }
