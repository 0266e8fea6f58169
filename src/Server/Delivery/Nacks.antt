-- ===== src/Server/Delivery/Nacks.antt =====
-- The nacks of a poll at the server: after them, each message is in the retry queue or dead.
use mathlib.Core.Path.{subst}
use pg_que.Base.{ℕ, String, ◌≡◌, refl, Option, List, [], ◌∷◌, map, All}
use pg_que.Value.{nat}
use pg_que.Exec.{ok}
use pg_que.Types.{Message}
use pg_que.Client
use pg_que.Consumer.{Consumer, handler_for}
use pg_que.Consumer.Plan.{Plan, Verdict, settled, to_nack, stopped, plan, judge, extend}
use pg_que.Consumer.Polling.{AllNacked}
use pg_que.Server.BatchSql.{Event}
use pg_que.Server.Tables.{Db, Subscription}
use pg_que.Server.Nack.Parked.{IsParked}
use pg_que.Driver.{Driver}
use pg_que.Server.Serves.{Serves}
use pg_que.Server.Serves.Receives.{message}
use pg_que.Server.Serves.Settles.{nack-IsNacked}
use pg_que.Server.Delivery.Parking.{IsOpen, AreOwnIds, Leaves, nack-Leaves}

-- The messages of the list are of events.
abbrev pub AreOf : ℕ → List (Message × Option String) → Type 0
AreOf batch_id ns = All (λ n. (ev : Event) × (n.0 ≡ message batch_id ev)) ns

-- So, and the events are parked.
abbrev pub AreParked : ℕ → Subscription → Db → List (Message × Option String) → Type 0
AreParked batch_id sub db ns =
    All (λ n. (ev : Event) × (n.0 ≡ message batch_id ev) × IsParked db sub ev.ev_id) ns

extend-AreOf :
    {E : Type 0} (batch_id : ℕ) (ev : Event) (v : Verdict) (e : E) (p : Plan E)
    → AreOf batch_id p.nacks
    → AreOf batch_id (extend (message batch_id ev) v e p).nacks
extend-AreOf batch_id ev settled e p h = h
extend-AreOf batch_id ev (to_nack reason) e p h = ((ev, refl), h)
extend-AreOf batch_id ev (stopped x) e p h = tt

-- What is to be nacked of a batch are messages of it.
pub plan-AreOf :
    {E : Type 0} (c : Consumer E) (batch_id : ℕ) (evs : List Event) (e : E)
    → AreOf batch_id (plan c (map (message batch_id) evs) e).nacks
unfolding plan
plan-AreOf c batch_id [] e = tt
plan-AreOf c batch_id (ev ∷ evs) e =
    let m = message batch_id ev in
    let (v, e') = judge c m (handler_for c m.type) e in
    extend-AreOf batch_id ev v e' (plan c (map (message batch_id) evs) e')
      (plan-AreOf c batch_id evs e')

module _ (D : Driver) (V : Serves D) {E : Type 0} (c : Consumer E) (queue consumer : String)
    (batch_id : ℕ) (sub : Subscription) (evs : List Event) (own : AreOwnIds evs) where
  -- What a list of nacks leaves.
  pub record LeavesAll (s t : D.State) (ns : List (Message × Option String)) : Type 0 where
    pub still : IsOpen queue consumer batch_id sub evs (V.tables t)
    pub there : AreParked batch_id sub (V.tables t) ns
    pub stay : (other : ℕ) → IsParked (V.tables s) sub other → IsParked (V.tables t) sub other

  one_more :
      (m : Message) (reason : Option String) (s s1 : D.State)
      → (ev : Event) × (m ≡ message batch_id ev)
      → IsOpen queue consumer batch_id sub evs (V.tables s)
      → Client.nack D (nat batch_id) m c.retry_after reason s ≡ (ok tt, s1)
      → (ev : Event) × (m ≡ message batch_id ev)
        × Leaves queue consumer batch_id sub evs own (V.tables s) ev.ev_id (V.tables s1)
  one_more m reason s s1 (ev, e) o h =
      let r =
        nack-IsNacked D V s batch_id ev c.retry_after reason s1
          (subst (λ m. Client.nack D (nat batch_id) m c.retry_after reason s ≡ (ok tt, s1)) e h) in
      (
        ev,
        e,
        nack-Leaves queue consumer batch_id sub evs own (V.tables s) ev.ev_id r.seconds r.reply
            r.reason (V.tables s1) o r.done,
      )

  pub AllNacked-LeavesAll :
      (ns : List (Message × Option String)) (s t : D.State)
      → AreOf batch_id ns
      → IsOpen queue consumer batch_id sub evs (V.tables s)
      → AllNacked D c (nat batch_id) ns s t
      → LeavesAll s t ns
  AllNacked-LeavesAll [] s t h o e =
      subst (λ (t : D.State). LeavesAll s t []) e
        (record { still = o; there = tt; stay = λ other k. k })
  AllNacked-LeavesAll ((m, reason) ∷ ns) s t (h, hs) o (now, later) =
      let s1 = (Client.nack D (nat batch_id) m c.retry_after reason s).1 in
      let (ev, e, one) = one_more m reason s s1 h o (λ i. (now i, s1)) in
      let rest = AllNacked-LeavesAll ns s1 t hs one.still later in
      record {
        still = rest.still;
        there = ((ev, e, rest.stay ev.ev_id one.there), rest.there);
        stay = λ other k. rest.stay other (one.stay other k);
      }
