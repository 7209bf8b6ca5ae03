-- ===== src/Service/Feedback/Tests.antt =====
-- A run of `SubscribeFeedback`.
use golang_iothub.Base.{
  ℕ, zero, suc, ◌+◌, ◌<◌, ◌≡◌, refl, List, [], ◌∷◌, none, some, codes, Result, ok, err, Bytes,
  context_done, arith, false,
}
use golang_iothub.Amqp.{Peer, World, message}
use golang_iothub.Service.Connect.{connect}
use golang_iothub.Eventhub.{Client}
use golang_iothub.Service.Feedback.{Feedback, Records, Inbox, batch, subscribe_feedback, first_data}
use golang_iothub.Service.Feedback.Order.{gathered, subscribe_feedback_outcome}

abbrev peer : Peer
peer = record {
  opens = λ k. none;
  closes = λ k. none;
  sends = λ k. none;
  receives = λ k. err context_done;
  detaches = λ k. message;
  random = λ k. ok (codes "m1");
}

abbrev delivered : Feedback
delivered = record {
  original_message_id = codes "m1";
  description = codes "Success";
  device_generation_id = codes "g";
  device_id = codes "d";
  enqueued_time_utc = 5;
  status_code = codes "Success";
}

abbrev arrivals : ℕ → Result (List Bytes)
arrivals zero = err context_done
arrivals (suc zero) = ok (codes "x" ∷ [])
arrivals (suc (suc k)) = err context_done

abbrev inbox : Inbox
inbox = record { receives = arrivals; unmarshal = λ b. ok (some delivered ∷ none ∷ []) }

abbrev a_client : Client
a_client = record { conn = 0; sess = 1; is_done = false }

abbrev world : World
world = record { calls = 0; is_open = [] }

abbrev records : ℕ → Records
records k = some delivered ∷ none ∷ []

one_batch : (k : ℕ) → k < 1 → batch inbox (1 + k) ≡ ok (records k)
unfolding batch first_data
one_batch zero l = refl
one_batch (suc k) l = absurd (omega arith)

subscribe_feedback_outcome_example :
    subscribe_feedback peer inbox (ok []) (some a_client) 5 world ≡ record {
      world = record { calls = 4; is_open = [] };
      started = gathered records 1;
      outcome = some (err context_done);
    }
unfolding batch connect
subscribe_feedback_outcome_example =
    subscribe_feedback_outcome peer inbox (ok []) (some a_client) world world a_client records
      (err context_done) 1 3 refl tt refl one_batch refl
