-- ===== src/Client/Requests.antt =====
-- The statements that the methods of clients/python/pgque/client.py send, and how they encode
-- their arguments. What is computed before `conn.execute` is called may raise a `TypeError`.
use Prim.Native.String.{◌++◌ as ◌<>◌}
use pg_que.Base.{ℕ, String, Option, none, some, List, [], ◌∷◌, ◌&&◌, not, str_eq, if◌then◌else◌}
use pg_que.Base.Texts.{show}
use pg_que.Value.{
  Value, null, str, arr, obj, event, Fields, end, field, nat, is_container, optional_text, to_items,
  of_items,
}
use pg_que.Value.Json.{dumps}
use pg_que.Errors.{type_error}
use pg_que.Exec.{Result, ok, err}
use pg_que.Types.{Message}
use pg_que.Driver.{Query}

-- `json.dumps(v) if isinstance(v, (dict, list)) else v`
unfoldable pub encode_container : Value → Result Value
encode_container v =
    if is_container v then elim (dumps v) [ none ↦ err type_error | some t ↦ ok (str t) ] else ok v

-- The payload of `send` and of `send_batch`: `None` is JSON null.
unfoldable pub encode_payload : Value → Result Value
encode_payload null = ok (str "null")
encode_payload v = encode_container v

-- `isinstance(payload, Event)`: the type and payload of an event win over the arguments.
abbrev pub unpack : Value → String → Value × String
unpack (event v t) type = (v, t)
unpack v type = (v, type)

abbrev pub send_query : String → String → Value → Query
send_query queue type payload =
    if not (str_eq type "") && not (str_eq type "default")
    then record {
      text = "select pgque.send(%s, %s, %s::jsonb)";
      params = str queue ∷ str type ∷ payload ∷ [];
    }
    else record { text = "select pgque.send(%s, %s::jsonb)"; params = str queue ∷ payload ∷ [] }

-- `send`, up to the call of `execute`.
unfoldable pub send_request : String → Value → String → Result Query
send_request queue payload type =
    let (payload', type') = unpack payload type in
    elim (encode_payload payload') [ err e ↦ err e | ok p ↦ ok (send_query queue type' p) ]

-- The list comprehension of `send_batch`.
unfoldable pub encode_payloads : List Value → Result (List Value)
encode_payloads [] = ok []
encode_payloads (p ∷ ps) = elim (encode_payload p) [
  | err e ↦ err e
  | ok v ↦ elim (encode_payloads ps) [ err e ↦ err e | ok vs ↦ ok (v ∷ vs) ]
]

-- `send_batch`, up to the call of `execute`.
unfoldable pub send_batch_request : String → String → List Value → Result Query
send_batch_request queue type payloads = elim (encode_payloads payloads) [
  | err e ↦ err e
  | ok vs ↦ ok (record {
    text = "select pgque.send_batch(%s, %s, %s::jsonb[])";
    params = str queue ∷ str type ∷ arr (to_items vs) ∷ [];
  })
]

abbrev chars : String → List Value
chars String.[] = []
chars (String.◌∷◌ c s) = str (String.◌∷◌ c "") ∷ chars s

abbrev keys : Fields → List Value
keys end = []
keys (field k v fs) = str k ∷ keys fs

-- `list(v)`
unfoldable pub list_of : Value → Result (List Value)
list_of (arr xs) = ok (of_items xs)
list_of (str s) = ok (chars s)
list_of (obj fs) = ok (keys fs)
list_of _ = err type_error

abbrev pub receive_query : String → String → ℕ → Query
receive_query queue consumer max_messages = record {
  text = "select * from pgque.receive(%s, %s, %s)";
  params = str queue ∷ str consumer ∷ nat max_messages ∷ [];
}

abbrev pub receive_coop_query : String → String → String → ℕ → Option String → Query
receive_coop_query queue consumer subconsumer max_messages dead_interval = record {
  text = "select * from pgque.receive_coop(%s, %s, %s, %s, %s::interval)";
  params =
      str queue
      ∷ str consumer
      ∷ str subconsumer
      ∷ nat max_messages
      ∷ optional_text dead_interval
      ∷ [];
}

abbrev pub ack_query : Value → Query
ack_query batch_id = record { text = "select pgque.ack(%s)"; params = batch_id ∷ [] }

abbrev pub nack_text : String
nack_text =
    "select pgque.nack(  %s,  ROW(%s, %s, %s, %s, %s, %s, %s, %s, %s, %s)::pgque.message,  %s::interval,  %s)"

-- `nack`, up to the call of `execute`.
unfoldable pub nack_request : Value → Message → ℕ → Option String → Result Query
nack_request batch_id msg retry_after reason = elim (encode_container msg.payload) [
  | err e ↦ err e
  | ok payload ↦ ok (record {
    text = nack_text;
    params =
        batch_id
        ∷ msg.msg_id
        ∷ msg.batch_id
        ∷ msg.type
        ∷ payload
        ∷ msg.retry_count
        ∷ msg.created_at
        ∷ msg.extra1
        ∷ msg.extra2
        ∷ msg.extra3
        ∷ msg.extra4
        ∷ str (show retry_after <> " seconds")
        ∷ optional_text reason
        ∷ [];
  })
]
