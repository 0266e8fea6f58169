-- ===== src/Examples/Clients.antt =====
-- The client, its encodings and the handlers of a consumer, at concrete arguments.
use pg_que.Base.{ℕ, ◌≡◌, refl, true, false, none, some, List, [], ◌∷◌, str_eq, if◌then◌else◌}
use pg_que.Value.{Value, null, nat, str, arr, obj, end, field, to_items}
use pg_que.Value.Json.{dumps}
use pg_que.Value.{is_container}
use pg_que.Exec.{Exec, ok, pure}
use pg_que.Driver.{Query}
use pg_que.Client
use pg_que.Client.{PgqueClient, with_client}
use pg_que.Client.Requests.{encode_container, encode_payload, encode_payloads, send_batch_request}
use pg_que.Client.Encoding.{SendsEach, send_batch_request-SendsEach}
use pg_que.Client.Faults.{raises_database, client-raises_database}
use pg_que.Client.Lifecycle.{with_client_closes}
use pg_que.Consumer.{Consumer, Settings, default_settings, init, on, get, handler_for, or_default}
use pg_que.Consumer.Handlers.{IsValid, on-init-IsValid, handler_for-on}
use pg_que.Examples.Toy.{Toy, toy}
use pg_que.Examples.Polls.{counting, consumer, server, message}

abbrev payloads : List Value
payloads = obj (field "k" (nat 1) end) ∷ null ∷ str "42" ∷ []

abbrev encoded : List Value
encoded = str "{\"k\": 1}" ∷ str "null" ∷ str "42" ∷ []

abbrev batch_query : Query
batch_query = record {
  text = "select pgque.send_batch(%s, %s, %s::jsonb[])";
  params = str "orders" ∷ str "order.created" ∷ arr (to_items encoded) ∷ [];
}

batch_request : send_batch_request "orders" "order.created" payloads ≡ ok batch_query
unfolding send_batch_request encode_payloads encode_payload encode_container is_container dumps
batch_request = refl

send_batch_request-SendsEach_example :
    (vs : List Value) × (batch_query.params
      ≡ str "orders" ∷ str "order.created" ∷ arr (to_items vs) ∷ [])
    × SendsEach "orders" "order.created" payloads vs
send_batch_request-SendsEach_example =
    send_batch_request-SendsEach "orders" "order.created" payloads batch_query
      (refl, (refl, (refl, tt))) batch_request

abbrev count_three : PgqueClient → Exec Toy ℕ
count_three c = pure 3

with_client_closes_example :
    ((with_client toy (record { owns_conn = true }) count_three (server [] none false)).0 ≡ ok 3)
    × (toy.closed
          (with_client toy (record { owns_conn = true }) count_three (server [] none false)).1
        ≡ true)
with_client_closes_example =
    with_client_closes toy (λ s. refl) (record { owns_conn = true }) count_three
      (server [] none false) refl

abbrev aborted : Toy
aborted = record (server [] none false) { aborted = true }

client-raises_database_example :
    (raises_database (Client.send toy "orders" null "default" aborted).0 ≡ false)
    × (raises_database (Client.send_batch toy "orders" "default" payloads aborted).0 ≡ false)
    × (raises_database (Client.subscribe toy "orders" "worker" aborted).0 ≡ false)
    × (raises_database (Client.unsubscribe toy "orders" "worker" aborted).0 ≡ false)
    × (raises_database (Client.receive toy "orders" "worker" 5 aborted).0 ≡ false)
    × (raises_database (Client.ack toy (nat 7) aborted).0 ≡ false)
    × (raises_database (Client.nack toy (nat 7) (message 1 "good") 5 none aborted).0 ≡ false)
    × (raises_database (Client.force_next_tick toy "orders" aborted).0 ≡ false)
    × (raises_database (Client.force_tick toy "orders" aborted).0 ≡ false)
    × (raises_database (Client.ticker toy "orders" aborted).0 ≡ false)
    × (raises_database (Client.ticker_all toy aborted).0 ≡ false)
    × (raises_database (Client.subscribe_subconsumer toy "orders" "worker" "w1" aborted).0 ≡ false)
    × (raises_database (Client.unsubscribe_subconsumer toy "orders" "worker" "w1" 5 aborted).0
        ≡ false)
    × (raises_database (Client.receive_coop toy "orders" "worker" "w1" 5 none aborted).0 ≡ false)
    × (raises_database (Client.touch_subconsumer toy "orders" "worker" "w1" aborted).0 ≡ false)
client-raises_database_example =
    client-raises_database toy "orders" "worker" "w1" "default" null (nat 7) payloads
      (message 1 "good") 5 none aborted

abbrev settings : Settings
settings = default_settings "postgresql://localhost/mydb" "orders" "worker"

abbrev fresh : Consumer ℕ
fresh = record consumer { max_messages = 2147483647; handlers = [] }

init_run : init {E = ℕ} settings ≡ ok fresh
unfolding init
init_run = refl

on-init-IsValid_example : IsValid fresh × IsValid (on "good" counting fresh)
on-init-IsValid_example = on-init-IsValid settings fresh "good" counting init_run

handler_for-on_example : handler_for (on "*" counting fresh) (str "x") ≡ (
    if str_eq "*" "*"
    then ok (or_default (get "x" fresh.handlers) (some counting))
    else if str_eq "*" "x"
    then ok (some counting)
    else handler_for fresh (str "x"))
handler_for-on_example = handler_for-on fresh "*" "x" counting
