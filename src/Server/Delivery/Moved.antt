-- ===== src/Server/Delivery/Moved.antt =====
-- The end of a poll at the server: the ack moves the consumer, and the nacked messages are kept.
use mathlib.Core.Path.{subst}
use pg_que.Base.{ℕ, String, ◌≡◌, refl, ap, true, Option, none, some, List, [], ◌∷◌, map, inl, inr}
use pg_que.Exec.{Result, ok}
use pg_que.Types.{Message}
use pg_que.Value.{Value, nat}
use pg_que.Client.Requests.{ack_query}
use pg_que.Consumer.{Consumer, World, process}
use pg_que.Consumer.Plan.{plan}
use pg_que.Consumer.Polling.{process-Settled}
use pg_que.Server.BatchSql.{Event}
use pg_que.Server.Tables.{Db, Subscription, Role, named, holder, update, same_key, is_member}
use pg_que.Server.Batches.{finished, finish_batch}
use pg_que.Server.Batches.Held.{finish_batch-eq, finish_batch-finished}
use pg_que.Server.Nack.{dead_consumer}
use pg_que.Server.Nack.Parked.{IsParked}
use pg_que.Driver.{Driver}
use pg_que.Driver.Assumptions.{IsCalm}
use pg_que.Server.Serves.{Serves}
use pg_que.Server.Serves.Receives.{message}
use pg_que.Server.Serves.Settles.{ack-IsAcked}
use pg_que.Server.Delivery.Parking.{IsOpen, AreOwnIds}
use pg_que.Server.Delivery.Nacks.{AreParked, plan-AreOf, AllNacked-LeavesAll}

dead_consumer-normal :
    (db : Db) (s : Subscription) → s.sub_role ≡ Role.normal → dead_consumer db s ≡ s.sub_consumer
unfolding dead_consumer
dead_consumer-normal db s plain = rw (dead_consumer, ap is_member plain) refl

module _ (db : Db) (batch_id : ℕ) (sub : Subscription) (held : holder db batch_id ≡ some sub)
    (plain : sub.sub_role ≡ Role.normal) where
  finish_batch-IsParked :
      (id : ℕ) → IsParked db sub id → IsParked (finish_batch batch_id db).1 sub id
  finish_batch-IsParked id h = rw (finish_batch-eq db batch_id sub held plain) (by_table h)
    where
      by_table :
          IsParked db sub id
          → IsParked
              (record db {
                subscriptions = update (same_key sub) (finished db.now) db.subscriptions;
              })
              sub
              id
      by_table (inl retried) = inl retried
      by_table (inr dead) =
          inr
            (rw (dead_consumer-normal _ sub plain) (rw (← dead_consumer-normal db sub plain) dead))

  finish_batch-AreParked :
      (ns : List (Message × Option String))
      → AreParked batch_id sub db ns
      → AreParked batch_id sub (finish_batch batch_id db).1 ns
  finish_batch-AreParked [] h = tt
  finish_batch-AreParked (n ∷ ns) ((ev, e, h), hs) =
      ((ev, e, finish_batch-IsParked ev.ev_id h), finish_batch-AreParked ns hs)

module _ (D : Driver) (calm : IsCalm D) (V : Serves D) {E : Type 0} (c : Consumer E) where
  -- What is known of a world in which the loop over a batch has reported success.
  pub record IsProcessed (batch_id : ℕ) (sub : Subscription) (evs : List Event)
      (w w' : World D.State E) : Type 0 where
    pub between : D.State
    pub rows : List (List Value)
    pub executed : D.execute (ack_query (nat batch_id)) between ≡ (ok rows, w'.db)
    pub runs_through : (plan c (map (message batch_id) evs) w.app).stop ≡ none
    pub handled : w'.app ≡ (plan c (map (message batch_id) evs) w.app).app
    pub kept :
        AreParked batch_id sub (V.tables w'.db) (plan c (map (message batch_id) evs) w.app).nacks
    pub now : ℕ
    pub moved : named (V.tables w'.db) c.queue c.name ≡ some (finished now sub)

  pub process-IsProcessed :
      (batch_id : ℕ) (sub : Subscription) (ev : Event) (evs : List Event) (w w' : World D.State E)
      → AreOwnIds (ev ∷ evs)
      → IsOpen c.queue c.name batch_id sub (ev ∷ evs) (V.tables w.db)
      → sub.sub_role ≡ Role.normal
      → process D c (map (message batch_id) (ev ∷ evs)) w ≡ (ok true, w')
      → IsProcessed batch_id sub (ev ∷ evs) w w'
  process-IsProcessed batch_id sub ev evs w w' own o plain h =
      let st =
        (process-Settled D calm c (message batch_id ev) (map (message batch_id) evs) w w').0 h in
      let all =
        AllNacked-LeavesAll D V c c.queue c.name batch_id sub (ev ∷ evs) own _ w.db st.between
          (plan-AreOf c batch_id (ev ∷ evs) w.app) o st.nacked in
      let acked = ack-IsAcked D V st.between batch_id st.reply w'.db st.acked in
      let left : (finish_batch batch_id (V.tables st.between)).1 ≡ (V.tables w'.db) =
        ap (λ (x : Result ℕ × Db). x.1) acked.done in
      record {
        between = st.between;
        rows = acked.rows;
        executed = acked.executed;
        runs_through = st.runs_through;
        handled = st.handled;
        kept =
            subst
              (λ (d : Db).
                AreParked batch_id sub d (plan c (map (message batch_id) (ev ∷ evs)) w.app).nacks)
              left
              (finish_batch-AreParked (V.tables st.between) batch_id sub all.still.held plain _
                all.there);
        now = (V.tables st.between).now;
        moved =
            subst
              (λ (d : Db). named d c.queue c.name ≡ some (finished (V.tables st.between).now sub))
              left
              (finish_batch-finished (V.tables st.between) c.queue c.name batch_id sub all.still.is
                all.still.held plain);
      }
