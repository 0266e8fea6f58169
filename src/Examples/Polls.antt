-- ===== src/Examples/Polls.antt =====
-- Polls of a consumer at the server in memory.
use pg_que.Base.{
  ℕ, ◌+◌, String, ◌≡◌, ◌≢◌, ◌↔◌, refl, Bool, true, false, Option, none, List, [], ◌∷◌, inl,
}
use pg_que.Value.{Value, null, nat, str}
use pg_que.Errors.{DbError, Exn, application}
use pg_que.Exec.{ok, err}
use pg_que.Types.{Message}
use pg_que.Driver.{Query}
use pg_que.Client.Requests.{nack_text}
use pg_que.Consumer.{
  Consumer, Handler, World, dispatch, process, receive_batch, poll_block, poll_once,
}
use pg_que.Consumer.Plan.{plan, nack_all}
use pg_que.Consumer.Dispatch.{carry_out, dispatch-eq-carry_out}
use pg_que.Consumer.Polling.{Settled, process-Settled, process_unacked}
use pg_que.Consumer.Rollback.{SomeRejected, begun, poll_once_raises, rejected_nack_undoes_poll}
use pg_que.Examples.Opened.{opened}
use pg_que.Examples.Toy.{Toy, toy, toy-IsCalm, toy_transactions, server_error}

abbrev pub counting : Handler ℕ
counting m n = (ok tt, n + 1)

abbrev pub failing : Handler ℕ
failing m n = (err (application "boom"), n + 100)

abbrev pub interrupted : Handler ℕ
interrupted m n = (err Exn.interrupt, n)

abbrev pub consumer : Consumer ℕ
consumer = record {
  dsn = "postgresql://localhost/mydb";
  queue = "orders";
  name = "worker";
  poll_interval = 30;
  max_messages = 2;
  retry_after = 60;
  unknown_handler_policy = "nack";
  subconsumer = none;
  dead_interval = none;
  handlers = ("good", counting) ∷ ("bad", failing) ∷ ("stop", interrupted) ∷ [];
  default_handler = none;
}

abbrev pub row : ℕ → String → List Value
row id type = nat id ∷ nat 7 ∷ str type ∷ str "{}" ∷ null ∷ null ∷ null ∷ null ∷ null ∷ null ∷ []

abbrev pub message : ℕ → String → Message
message id type = record {
  msg_id = nat id;
  batch_id = nat 7;
  type = str type;
  payload = str "{}";
  retry_count = null;
  created_at = null;
  extra1 = null;
  extra2 = null;
  extra3 = null;
  extra4 = null;
}

abbrev pub server : List (List Value) → Option DbError → Bool → Toy
server batch refusal rejects = record {
  batch = batch;
  refusal = refusal;
  rejects_nacks = rejects;
  in_block = true;
  aborted = false;
  pending = 0;
  stored = 0;
  shut = false;
}

abbrev pub world : Toy → World Toy ℕ
world s = record { db = s; app = 0 }

abbrev mixed : List (List Value)
mixed = row 1 "bad" ∷ row 2 "good" ∷ row 3 "other" ∷ []

abbrev after_batch : World Toy ℕ
after_batch = record { db = record (server mixed none false) { pending = 3 }; app = 101 }

abbrev rest : List Message
rest = message 2 "good" ∷ message 3 "other" ∷ []

process_run :
    process toy consumer (message 1 "bad" ∷ rest) (world (server mixed none false))
    ≡ (ok true, after_batch)
unfolding opened
process_run = refl

process-Settled_example :
    (process toy consumer (message 1 "bad" ∷ rest) (world (server mixed none false))
      ≡ (ok true, after_batch))
    ↔ Settled toy consumer (message 1 "bad") rest (world (server mixed none false)) after_batch
process-Settled_example =
    process-Settled toy toy-IsCalm consumer (message 1 "bad") rest (world (server mixed none false))
      after_batch

dispatch-eq-carry_out_example :
    dispatch toy consumer (nat 7) (message 1 "bad" ∷ rest) false (world (server mixed none false))
    ≡ carry_out toy consumer
        (nat 7)
        (plan consumer (message 1 "bad" ∷ rest) 0)
        false
        (server mixed none false)
dispatch-eq-carry_out_example =
    dispatch-eq-carry_out toy toy-IsCalm consumer (nat 7) (message 1 "bad" ∷ rest) false
      (world (server mixed none false))

plan_runs_through : (plan consumer (message 1 "bad" ∷ rest) 0).stop ≡ none
unfolding opened
plan_runs_through = refl

nacks_fail :
    (nack_all toy consumer
      (nat 7)
      (plan consumer (message 1 "bad" ∷ rest) 0).nacks
      false
      (server mixed none true)).0
    ≡ true
unfolding opened
nacks_fail = refl

process_unacked_example :
    process toy consumer (message 1 "bad" ∷ rest) (world (server mixed none true)) ≡ (
      ok false,
      record {
        db =
            (nack_all toy consumer
              (nat 7)
              (plan consumer (message 1 "bad" ∷ rest) 0).nacks
              false
              (server mixed none true)).1;
        app = (plan consumer (message 1 "bad" ∷ rest) 0).app;
      },
    )
process_unacked_example =
    process_unacked toy toy-IsCalm consumer (message 1 "bad") rest (world (server mixed none true))
      plan_runs_through nacks_fail

abbrev stopping : List (List Value)
stopping = row 1 "bad" ∷ row 2 "stop" ∷ []

block_is_interrupted :
    (poll_block toy consumer
      (begun toy toy-IsCalm toy_transactions consumer (world (server stopping none false)))).0
    ≡ err Exn.interrupt
unfolding opened
block_is_interrupted = refl

poll_once_raises_example :
    ((poll_once toy consumer (world (server stopping none false))).0 ≡ err Exn.interrupt)
    × (toy_transactions.committed (poll_once toy consumer (world (server stopping none false))).1.db
        ≡ toy_transactions.committed (server stopping none false))
poll_once_raises_example =
    poll_once_raises toy toy-IsCalm toy_transactions consumer (world (server stopping none false))
      Exn.interrupt refl block_is_interrupted

abbrev sent_nack : Query
sent_nack = record {
  text = nack_text;
  params =
      nat 7
      ∷ nat 1
      ∷ nat 7
      ∷ str "bad"
      ∷ str "{}"
      ∷ null
      ∷ null
      ∷ null
      ∷ null
      ∷ null
      ∷ null
      ∷ str "60 seconds"
      ∷ null
      ∷ [];
}

abbrev received_world : World Toy ℕ
received_world = record { db = record (server mixed none true) { pending = 1 }; app = 0 }

batch_is_received :
    receive_batch toy
      (record consumer { max_messages = 3 })
      (begun toy toy-IsCalm toy_transactions
        (record consumer { max_messages = 3 })
        (world (server mixed none true)))
    ≡ (ok (message 1 "bad" ∷ rest), received_world)
unfolding opened
batch_is_received = refl

abbrev larger : Consumer ℕ
larger = record consumer { max_messages = 3 }

larger_runs_through : (plan larger (message 1 "bad" ∷ rest) 0).stop ≡ none
unfolding opened
larger_runs_through = refl

first_nack_is_rejected :
    SomeRejected toy larger
      (nat 7)
      (plan larger (message 1 "bad" ∷ rest) 0).nacks
      (record (server mixed none true) { pending = 1 })
unfolding opened
first_nack_is_rejected = inl (record {
  query = sent_nack;
  error = server_error "batch not found: 7" "P0001";
  state = "P0001";
  requested = refl;
  answered = refl;
  reported = refl;
})

rejected_nack_undoes_poll_example :
    ((poll_once toy larger (world (server mixed none true))).0 ≢ ok true)
    × (toy_transactions.committed (poll_once toy larger (world (server mixed none true))).1.db
        ≡ toy_transactions.committed (server mixed none true))
rejected_nack_undoes_poll_example =
    rejected_nack_undoes_poll toy toy-IsCalm toy_transactions larger (message 1 "bad") rest
      (world (server mixed none true)) received_world refl batch_is_received larger_runs_through
      first_nack_is_rejected
