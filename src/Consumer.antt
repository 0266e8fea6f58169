-- ===== src/Consumer.antt =====
-- clients/python/pgque/consumer.py: the consumer, its handlers, and `_poll_once`. A handler is
-- code of the application: an action on a state `E` of its own, which may raise. Logging is not
-- modelled.
pub mod Plan
pub mod Dispatch
pub mod Polling
pub mod Keeps
pub mod Rollback
pub mod Handlers
pub mod Runtime
pub mod Waiting
pub mod Session
use Prim.Native.String.{◌++◌ as ◌<>◌}
use pg_que.Base.{
  ℕ, String, Bool, true, false, Option, none, some, List, [], ◌∷◌, ◌&&◌, ◌||◌, not, str_eq,
  if◌then◌else◌,
}
use pg_que.Value.{Value, null, str, is_hashable}
use pg_que.Errors.{Exn, value_error, type_error, is_exception}
use pg_que.Exec.{Result, ok, err, Exec, pure, raise, lift, catching, ◌>>=◌, ◌>>◌}
use pg_que.Types.{Message}
use pg_que.Driver.{Driver}
use pg_que.Client

abbrev pub Handler : Type 0 → Type 0
Handler E = Message → Exec E Unit

-- `_running` is part of the loop's state (Consumer/Session.antt).
pub record Consumer (E : Type 0) : Type 0 where
  pub dsn : String
  pub queue : String
  pub name : String
  pub poll_interval : ℕ
  pub max_messages : ℕ
  pub retry_after : ℕ
  pub unknown_handler_policy : String
  pub subconsumer : Option String
  pub dead_interval : Option String
  pub handlers : List (String × Handler E)
  pub default_handler : Option (Handler E)

-- What the caller of the constructor chooses.
pub record Settings : Type 0 where
  pub dsn : String
  pub queue : String
  pub name : String
  pub poll_interval : ℕ
  pub max_messages : ℕ
  pub retry_after : ℕ
  pub unknown_handler_policy : String
  pub subconsumer : Option String
  pub dead_interval : Option String

-- The defaults of the constructor.
abbrev pub default_settings : String → String → String → Settings
default_settings dsn queue name = record {
  dsn = dsn;
  queue = queue;
  name = name;
  poll_interval = 30;
  max_messages = 2147483647;
  retry_after = 60;
  unknown_handler_policy = "nack";
  subconsumer = none;
  dead_interval = none;
}

abbrev pub is_policy : String → Bool
is_policy p = str_eq p "nack" || str_eq p "ack"

abbrev pub is_some {ℓ} : {A : Type ℓ} → Option A → Bool
is_some none = false
is_some (some a) = true

module _ {E : Type 0} where
  -- `__init__`; `repr` of the policy is left out of the message.
  unfoldable pub init : Settings → Result (Consumer E)
  init s =
      if not (is_policy s.unknown_handler_policy)
      then err (value_error "unknown_handler_policy must be 'nack' or 'ack'")
      else if is_some s.dead_interval && not (is_some s.subconsumer)
      then err (value_error "dead_interval is only valid in cooperative mode (set subconsumer=...)")
      else ok (record {
        dsn = s.dsn;
        queue = s.queue;
        name = s.name;
        poll_interval = s.poll_interval;
        max_messages = s.max_messages;
        retry_after = s.retry_after;
        unknown_handler_policy = s.unknown_handler_policy;
        subconsumer = s.subconsumer;
        dead_interval = s.dead_interval;
        handlers = [];
        default_handler = none;
      })

  unfoldable pub put : String → Handler E → List (String × Handler E) → List (String × Handler E)
  put k h [] = (k, h) ∷ []
  put k h ((j, g) ∷ d) = if str_eq j k then (k, h) ∷ d else (j, g) ∷ put k h d

  unfoldable pub get : String → List (String × Handler E) → Option (Handler E)
  get k [] = none
  get k ((j, g) ∷ d) = if str_eq j k then some g else get k d

  -- `on`, and the decorator that it returns
  unfoldable pub on : String → Handler E → Consumer E → Consumer E
  on event_type func c =
      if str_eq event_type "*"
      then record c { default_handler = some func }
      else record c { handlers = put event_type func c.handlers }

  abbrev pub or_default : Option (Handler E) → Option (Handler E) → Option (Handler E)
  or_default none d = d
  or_default (some h) d = some h

  -- `self._handlers.get(msg.type, self._default_handler)`: all keys are texts.
  unfoldable pub handler_for : Consumer E → Value → Result (Option (Handler E))
  handler_for c (str t) = ok (or_default (get t c.handlers) c.default_handler)
  handler_for c v = if is_hashable v then ok c.default_handler else err type_error

-- `{msg.type}` in an f-string. The column is a text, so psycopg gives a text or `None`.
abbrev pub format_type : Value → String
format_type (str t) = t
format_type null = "None"
format_type _ = ""

abbrev pub no_handler_reason : Message → Option String
no_handler_reason msg = some ("no handler for type=" <> format_type msg.type)

-- The connection's state beside the application's.
pub record World (S E : Type 0) : Type 0 where
  pub db : S
  pub app : E

module _ {S E : Type 0} where
  abbrev pub on_db : {A : Type 0} → Exec S A → World S E → Result A × World S E
  on_db m w = let (r, s) = m w.db in (r, record w { db = s })

  abbrev pub on_app : {A : Type 0} → Exec E A → World S E → Result A × World S E
  on_app m w = let (r, e) = m w.app in (r, record w { app = e })

-- `except Exception`: anything else is raised again.
abbrev pub except_exception {ℓ} : {S A : Type ℓ} → Exec S A → Exn → Exec S A
except_exception m e = if is_exception e then m else raise e

abbrev pub Run : (D : Driver) → Type 0 → Type 0 → Type 0
Run D E A = Exec (World D.State E) A

module _ (D : Driver) {E : Type 0} where
  -- The end of `with conn.transaction()`, by what its block has come to.
  unfoldable pub end_transaction : Result Bool → Run D E Bool
  end_transaction (err e) w = (err e, record w { db = D.rollback w.db })
  end_transaction (ok b) w = (on_db D.commit >> pure b) w

  -- `with conn.transaction(): m`
  unfoldable pub transaction : Run D E Bool → Run D E Bool
  transaction m = do on_db D.begin; λ w. let (r, w') = m w in end_transaction r w'

  -- A nack inside `try … except Exception`: whether it failed.
  unfoldable pub try_nack : Consumer E → Value → Message → Option String → Run D E Bool
  try_nack c batch_id msg reason =
      catching (do on_db (Client.nack D batch_id msg c.retry_after reason); pure false)
        (except_exception (pure true))

  -- One round of the loop over the messages: whether its nack failed.
  unfoldable pub dispatch_one : Consumer E → Value → Message → Run D E Bool
  dispatch_one c batch_id msg = do
    handler ← lift (handler_for c msg.type)
    elim handler [
      | none ↦
          if str_eq c.unknown_handler_policy "ack"
          then pure false
          else try_nack c batch_id msg (no_handler_reason msg)
      | some h ↦
          catching (do on_app (h msg); pure false) (except_exception (try_nack c batch_id msg none))
    ]

  -- The loop over the messages: whether any nack failed.
  unfoldable pub dispatch : Consumer E → Value → List Message → Bool → Run D E Bool
  dispatch c batch_id [] nack_failed = pure nack_failed
  dispatch c batch_id (msg ∷ msgs) nack_failed = do
    failed ← dispatch_one c batch_id msg
    dispatch c batch_id msgs (nack_failed || failed)

  unfoldable pub receive_batch : Consumer E → Run D E (List Message)
  receive_batch c = elim c.subconsumer [
    | none ↦ on_db (Client.receive D c.queue c.name c.max_messages)
    | some sub ↦ on_db (Client.receive_coop D c.queue c.name sub c.max_messages c.dead_interval)
  ]

  -- After the loop. A result 0 of `ack` is logged and is no error.
  unfoldable pub finish : Value → Bool → Run D E Bool
  finish batch_id true = pure false
  finish batch_id false = do on_db (Client.ack D batch_id); pure true

  unfoldable pub process : Consumer E → List Message → Run D E Bool
  process c [] = pure false
  process c (msg ∷ msgs) = do
    nack_failed ← dispatch c msg.batch_id (msg ∷ msgs) false
    finish msg.batch_id nack_failed

  -- The block of the transaction.
  unfoldable pub poll_block : Consumer E → Run D E Bool
  poll_block c = do msgs ← receive_batch c; process c msgs

  -- `_poll_once`
  unfoldable pub poll_once : Consumer E → Run D E Bool
  poll_once c = transaction (poll_block c)
