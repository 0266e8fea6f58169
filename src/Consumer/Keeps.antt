-- ===== src/Consumer/Keeps.antt =====
-- What every statement keeps, the block of `_poll_once` keeps.
use pg_que.Base.{String, Bool, true, false, Option, none, some, List, [], ◌∷◌}
use pg_que.Value.{Value}
use pg_que.Exec.{Result, ok, err, follow, lift}
use pg_que.Types.{Message}
use pg_que.Driver.{Driver, Query}
use pg_que.Driver.Assumptions.{IsCalm}
use pg_que.Client
use pg_que.Client.Keeps.{ack_keeps, nack_keeps, receive_keeps, receive_coop_keeps}
use pg_que.Consumer.{Consumer, World, Run, finish, process, receive_batch, poll_block, on_db}
use pg_que.Consumer.Plan.{nack_all}
use pg_que.Consumer.Dispatch.{dispatch-eq-carry_out}

-- What every statement keeps, a poll's block keeps.
module _ (D : Driver) (calm : IsCalm D) (P : D.State → Type 0)
    (execute_keeps : (q : Query) (s : D.State) → P s → P (D.execute q s).1) {E : Type 0}
    (c : Consumer E) where
  pub nack_all_keeps :
      (b : Value) (ns : List (Message × Option String)) (failed : Bool) (s : D.State)
      → P s
      → P (nack_all D c b ns failed s).1
  unfolding nack_all
  nack_all_keeps b [] failed s h = h
  nack_all_keeps b ((m, reason) ∷ ns) failed s h =
      nack_all_keeps b ns _ _ (nack_keeps D P execute_keeps b m c.retry_after reason s h)

  follow_keeps :
      {A B : Type 0} (f : A → Result B) (r : Result A) (w : World D.State E)
      → P w.db
      → P (follow (λ a. lift (f a)) r w).1.db
  follow_keeps f (ok a) w h = h
  follow_keeps f (err x) w h = h

  finish_keeps :
      (b : Value) (r : Result Bool) (w : World D.State E)
      → P w.db
      → P (follow (finish D b) r w).1.db
  unfolding finish
  finish_keeps b (err x) w h = h
  finish_keeps b (ok true) w h = h
  finish_keeps b (ok false) w h =
      let (r, s) = Client.ack D b w.db in
      follow_keeps (λ v. ok true) r (record w { db = s }) (ack_keeps D P execute_keeps b w.db h)

  process_keeps : (ms : List Message) (w : World D.State E) → P w.db → P (process D c ms w).1.db
  unfolding process
  process_keeps [] w h = h
  process_keeps (m ∷ ms) w h =
      rw (dispatch-eq-carry_out D calm c m.batch_id (m ∷ ms) false w)
        (finish_keeps m.batch_id _ _ (nack_all_keeps m.batch_id _ false w.db h))

  pub receive_batch_keeps : (w : World D.State E) → P w.db → P (receive_batch D c w).1.db
  unfolding receive_batch
  receive_batch_keeps w h = by_mode c.subconsumer
    where
      by_mode :
          (sub : Option String)
          → P
              (elim sub as (λ x. Run D E (List Message)) [
                | none ↦ on_db (Client.receive D c.queue c.name c.max_messages)
                | some sub ↦
                    on_db (Client.receive_coop D c.queue c.name sub c.max_messages c.dead_interval)
              ]
                w).1.db
      by_mode none = receive_keeps D P execute_keeps c.queue c.name c.max_messages w.db h
      by_mode (some sub) =
          receive_coop_keeps D P execute_keeps c.queue c.name sub c.max_messages c.dead_interval
            w.db h

  then_process_keeps :
      (r : Result (List Message)) (w : World D.State E) → P w.db → P (follow (process D c) r w).1.db
  then_process_keeps (ok ms) w h = process_keeps ms w h
  then_process_keeps (err x) w h = h

  pub poll_block_keeps : (w : World D.State E) → P w.db → P (poll_block D c w).1.db
  unfolding poll_block
  poll_block_keeps w h =
      let (r, w') = receive_batch D c w in then_process_keeps r w' (receive_batch_keeps w h)
