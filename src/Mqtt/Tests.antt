-- ===== src/Mqtt/Tests.antt =====
-- The theorems of Mqtt at a run of one request.
use mathlib.Core.List.{Mem}
use golang_iothub.Base.{ℕ, ◌≡◌, refl, [], ◌∷◌, some, none, true, update, codes, pos, lt, ok, arith}
use golang_iothub.Base.{err, panic, ◌⊎◌, Error, Result}
use golang_iothub.Mqtt.Twins.{on_response, retrieve_twin_properties}
use golang_iothub.Mqtt.Twins.Answers.{retrieve_twin_properties-on_response}
use golang_iothub.Mqtt.Topics.Responses.{response_topic}
use golang_iothub.Base.{Bytes, lookup, same}
use golang_iothub.Device.Mux.Methods as Methods
use golang_iothub.Device.Mux.Methods.{Codec, MethodMux}
use golang_iothub.Mqtt.Topics.{method_response_topic}
use golang_iothub.Mqtt.Transport.{on_method}
use golang_iothub.Mqtt.Transport.Calls.{IsPlain, call_topic, on_method_lem}
use golang_iothub.Mqtt.Requests.{
  Resp, Arrival, enabled, numbered, registered, waiting, leaving, returned, System, move, resp_of,
  deliver, check_code, enable_first, take_number, register, send_succeeds, receive, delete, arrive,
  Reach, here, next, init, Step,
}
use golang_iothub.Mqtt.Requests.Own.{returned-delivered}

abbrev reply : Arrival
reply = record { rc = pos 200; rid = pos 1; ver = pos 0; payload = codes "{}" }

abbrev refusal : Resp
refusal = record { code = pos 404; body = []; ver = pos 0 }

abbrev s_enabled : System
s_enabled = record (move init 0 enabled) { is_enabled = true }

abbrev s_numbered : System
s_numbered = record (move s_enabled 0 (numbered 1)) { rid = 1; issued = 1 }

abbrev s_registered : System
s_registered = record (move s_numbered 0 (registered 1)) {
  table = update s_numbered.table 1 (some 0);
}

abbrev s_waiting : System
s_waiting = move s_registered 0 (waiting 1)

abbrev s_answered : System
s_answered = record s_waiting {
  buffer = update s_waiting.buffer 0 (some (resp_of reply));
  delivered = (1, resp_of reply) ∷ [];
}

abbrev s_received : System
s_received = record (move s_answered 0 (leaving 1 (check_code (resp_of reply)))) {
  buffer = update s_answered.buffer 0 none;
}

abbrev s_returned : System
s_returned = record (move s_received 0 (returned 1 (check_code (resp_of reply)))) {
  table = update s_received.table 1 none;
}

waiting_reached : Reach init s_waiting
waiting_reached =
    next
      (next (next (next here (enable_first 0 refl refl refl)) (take_number 0 refl refl))
        (register 0 1 refl refl))
      (send_succeeds 0 1 refl refl)

answered_reached : Reach init s_answered
unfolding deliver
answered_reached = next waiting_reached (arrive reply refl)

returned_reached : Reach init s_returned
returned_reached =
    next (next answered_reached (receive 0 1 (resp_of reply) refl refl refl))
      (delete 0 1 (check_code (resp_of reply)) refl refl)

returned-delivered_example : Mem (1, resp_of reply) s_returned.delivered
unfolding check_code lt
returned-delivered_example = returned-delivered 0 1 (resp_of reply) returned_reached refl

-- A transport that publishes everything, and a mux with one method that answers as it was asked.
abbrev codec : Codec
codec = record {
  unmarshal = λ b. ok none;
  marshal = λ d. ok (codes "{}");
  quote = λ b. b;
  error_text = λ e. [];
}

abbrev echoing : MethodMux
echoing = record { on = true; m = some ((codes "echo", ok) ∷ []) }

echo-IsPlain : IsPlain (codes "echo")
echo-IsPlain =
    (λ h. cc, omega arith, omega arith, (omega arith, omega arith, omega arith, omega arith))

on_method_lem_example :
    ((rc : ℕ) (body : Bytes)
      → Methods.dispatch codec echoing (codes "echo") [] ≡ ok (rc, body)
      → on_method
          (λ s. err Error.malformed_topic)
          (λ p. ok tt)
          true
          codec
          echoing
          (call_topic (codes "echo") 5)
          []
        ≡ ok (record { topic = method_response_topic rc 5; qos = 1; payload = some body } ∷ []))
    × ((e : Error)
        → Methods.dispatch codec echoing (codes "echo") [] ≡ err e
        → on_method
            (λ s. err Error.malformed_topic)
            (λ p. ok tt)
            true
            codec
            echoing
            (call_topic (codes "echo") 5)
            []
          ≡ ok [])
on_method_lem_example =
    on_method_lem (λ s. err Error.malformed_topic) (λ p. ok tt) codec echoing (codes "echo") [] 5
      echo-IsPlain (omega arith) (λ p. refl)

-- The call is answered with the status 200.
echo_test : Methods.dispatch codec echoing (codes "echo") [] ≡ ok (200, codes "{}")
unfolding Methods.dispatch lookup Methods.reply Methods.answer same
echo_test = refl

retrieve_twin_properties-on_response_example :
    ((s_waiting.buffer 0 ≡ none)
      × (s' u : System) × (o : Result Resp) × (on_response
            (λ s. err Error.malformed_topic)
            (response_topic 404 1)
            (codes "{}")
            s_waiting
          ≡ ok s')
      × Step s' u
      × (u.pcs 0 ≡ leaving 1 o)
      × (retrieve_twin_properties o ≡ ok (codes "{}")))
    ⊎ ((y : Resp) × (s_waiting.buffer 0 ≡ some y)
        × (on_response
              (λ s. err Error.malformed_topic)
              (response_topic 404 1)
              (codes "{}")
              s_waiting
            ≡ panic))
retrieve_twin_properties-on_response_example =
    retrieve_twin_properties-on_response (λ s. err Error.malformed_topic) s_waiting 0 1 404
      (codes "{}") waiting_reached (omega arith) refl (omega arith)
