-- ===== src/Client/Encoding.antt =====
-- `send_batch` of clients/python/pgque/client.py encodes its payloads as `send` does.
use pg_que.Base.{String, ◌≡◌, refl, Bool, true, false, List, [], ◌∷◌, All, arith}
use pg_que.Value.{Value, null, bool, int, str, arr, obj, event, opaque, to_items}
use pg_que.Exec.{Result, ok, err}
use pg_que.Driver.{Query}
use pg_que.Client.Requests.{
  encode_payload, send_query, send_request, encode_payloads, send_batch_request,
}

abbrev pub is_event : Value → Bool
is_event (event v t) = true
is_event _ = false

-- `send` of each payload sends the value that stands at its place.
abbrev pub SendsEach : String → String → List Value → List Value → Type 0
SendsEach queue type [] [] = Unit
SendsEach queue type (p ∷ ps) (v ∷ vs) =
    (send_request queue p type ≡ ok (send_query queue type v)) × SendsEach queue type ps vs
SendsEach queue type _ _ = ⊥

send_request-eq :
    (queue type : String) (p v : Value)
    → is_event p ≡ false
    → encode_payload p ≡ ok v
    → send_request queue p type ≡ ok (send_query queue type v)
unfolding send_request
send_request-eq queue type (event w t) v n h = absurd (cc)
send_request-eq queue type null v n h = rw (send_request, h) refl
send_request-eq queue type (bool b) v n h = rw (send_request, h) refl
send_request-eq queue type (int z) v n h = rw (send_request, h) refl
send_request-eq queue type (str s) v n h = rw (send_request, h) refl
send_request-eq queue type (arr xs) v n h = rw (send_request, h) refl
send_request-eq queue type (obj fs) v n h = rw (send_request, h) refl
send_request-eq queue type (opaque k) v n h = rw (send_request, h) refl

module _ (queue type : String) where
  encode_payloads-SendsEach :
      (ps vs : List Value)
      → All (λ p. is_event p ≡ false) ps
      → encode_payloads ps ≡ ok vs
      → SendsEach queue type ps vs
  unfolding encode_payloads
  encode_payloads-SendsEach [] [] n h = tt
  encode_payloads-SendsEach [] (v ∷ vs) n h = cc
  encode_payloads-SendsEach (p ∷ ps) [] n h = absurd (ground arith)
  encode_payloads-SendsEach (p ∷ ps) (v ∷ vs) (np, ns) h = (
    send_request-eq queue type p v np (ground arith),
    encode_payloads-SendsEach ps vs ns (ground arith),
  )

  encoded :
      (r : Result (List Value)) (ps : List Value) (q : Query)
      → ((vs : List Value) → r ≡ ok vs → SendsEach queue type ps vs)
      → (elim r as (λ x. Result Query) [
        | err e ↦ err e
        | ok vs ↦ ok (record {
          text = "select pgque.send_batch(%s, %s, %s::jsonb[])";
          params = str queue ∷ str type ∷ arr (to_items vs) ∷ [];
        })
      ])
        ≡ ok q
      → (vs : List Value) × (q.params ≡ str queue ∷ str type ∷ arr (to_items vs) ∷ [])
        × SendsEach queue type ps vs
  encoded (err x) ps q f h = absurd (cc)
  encoded (ok vs) ps q f h = (vs, ground arith, f vs refl)

  -- The values that `send_batch` sends for payloads that are no `Event` are, one for one and in
  -- order, those that `send` sends.
  pub send_batch_request-SendsEach :
      (ps : List Value) (q : Query)
      → All (λ p. is_event p ≡ false) ps
      → send_batch_request queue type ps ≡ ok q
      → (vs : List Value) × (q.params ≡ str queue ∷ str type ∷ arr (to_items vs) ∷ [])
        × SendsEach queue type ps vs
  unfolding send_batch_request
  send_batch_request-SendsEach ps q n h =
      encoded (encode_payloads ps) ps q (λ vs e. encode_payloads-SendsEach ps vs n e) h
