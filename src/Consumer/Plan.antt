-- ===== src/Consumer/Plan.antt =====
-- An independent description of the loop of `_poll_once` in clients/python/pgque/consumer.py, in
-- two passes: first every handler runs and the messages to nack are noted, then they are nacked.
use pg_que.Base.{String, Bool, Option, none, some, List, [], ◌∷◌, ◌||◌, not, str_eq, if◌then◌else◌}
use pg_que.Value.{Value}
use pg_que.Errors.{Exn, is_exception}
use pg_que.Exec.{Result, ok, err, is_ok}
use pg_que.Types.{Message}
use pg_que.Driver.{Driver}
use pg_que.Client
use pg_que.Consumer.{Consumer, Handler, handler_for, no_handler_reason}

-- What one message comes to, once its handler has run.
pub data Verdict : Type 0 where
  settled : Verdict
  to_nack : Option String → Verdict
  stopped : Exn → Verdict

abbrev pub verdict_of : Result (Unit {0}) → Verdict
verdict_of (ok u) = settled
verdict_of (err e) = if is_exception e then to_nack none else stopped e

pub record Plan (E : Type 0) : Type 0 where
  pub nacks : List (Message × Option String)
  pub stop : Option Exn
  pub app : E

module _ {E : Type 0} where
  -- The verdict on a message by the handler that was found for it.
  unfoldable pub judge : Consumer E → Message → Result (Option (Handler E)) → E → Verdict × E
  judge c m (err x) e = (stopped x, e)
  judge c m (ok none) e =
      (if str_eq c.unknown_handler_policy "ack" then settled else to_nack (no_handler_reason m), e)
  judge c m (ok (some h)) e = let (r, e') = h m e in (verdict_of r, e')

  abbrev pub extend : Message → Verdict → E → Plan E → Plan E
  extend m settled e p = p
  extend m (to_nack reason) e p = record p { nacks = (m, reason) ∷ p.nacks }
  extend m (stopped x) e p = record { nacks = []; stop = some x; app = e }

  unfoldable pub plan : Consumer E → List Message → E → Plan E
  plan c [] e = record { nacks = []; stop = none; app = e }
  plan c (m ∷ ms) e =
      let (v, e') = judge c m (handler_for c m.type) e in extend m v e' (plan c ms e')

module _ (D : Driver) {E : Type 0} where
  -- The nacks in order, each sent whether or not the ones before it failed.
  unfoldable pub nack_all :
      Consumer E → Value → List (Message × Option String) → Bool → D.State → Bool × D.State
  nack_all c batch_id [] failed s = (failed, s)
  nack_all c batch_id ((m, reason) ∷ rest) failed s =
      let (r, s') = Client.nack D batch_id m c.retry_after reason s in
      nack_all c batch_id rest (failed || not (is_ok r)) s'
