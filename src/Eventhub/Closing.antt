-- ===== src/Eventhub/Closing.antt =====
-- What the operations of the event hub client leave open.
use golang_iothub.Base.{
  ◌≡◌, ◌↔◌, Option, none, some, codes, lookup, pos, negsuc, same_int, arith, ok,
}
use golang_iothub.Amqp.{Value, int32, text, foreign, Reply, Peer, ◌>>◌}
use golang_iothub.Amqp.Balance.{
  Balanced, lift-Balanced, >>=-Balanced, with_handle-Balanced, send-Balanced, receive-Balanced,
  random_string-Balanced,
}
use golang_iothub.Eventhub.{check_status, check_message_response, put_token, partition_ids}

-- Whatever the broker answers, `PutToken` leaves open what was open before it, and no more.
pub put_token-Balanced : (peer : Peer) → Balanced (put_token peer)
unfolding put_token ◌>>◌
put_token-Balanced peer = with_handle-Balanced peer _ λ _. with_handle-Balanced peer _ λ _.
    >>=-Balanced _ _ (send-Balanced peer)
      λ _. >>=-Balanced _ _ (receive-Balanced peer) λ msg. lift-Balanced _

-- Whatever the hub answers, `getPartitionIDs` leaves open what was open before it, and no more.
partition_ids-Balanced : (peer : Peer) → Balanced (partition_ids peer)
unfolding partition_ids ◌>>◌
partition_ids-Balanced peer = >>=-Balanced _ _ (random_string-Balanced peer) λ _.
    with_handle-Balanced peer _ λ _. with_handle-Balanced peer _ λ _.
      >>=-Balanced _ _ (random_string-Balanced peer) λ mid.
        >>=-Balanced _ _ (send-Balanced peer) λ _. >>=-Balanced _ _ (receive-Balanced peer) λ msg.
          >>=-Balanced _ _ (lift-Balanced _)
            λ _. >>=-Balanced _ _ (lift-Balanced _) λ _. lift-Balanced _

check_status-eq-ok :
    (code rd : Option Value) → check_status code rd ≡ ok tt → code ≡ some (int32 (pos 200))
unfolding check_status same_int
check_status-eq-ok none rd h = cc
check_status-eq-ok (some foreign) rd h = cc
check_status-eq-ok (some (text v)) rd h = cc
check_status-eq-ok (some (int32 (pos n))) rd h = ground arith
check_status-eq-ok (some (int32 (negsuc n))) rd h = cc

-- A response passes the check exactly if its status code is the int32 200.
check_message_response_lem :
    (msg : Reply)
    → (check_message_response msg ≡ ok tt)
      ↔ (lookup (codes "status-code") msg.application_properties ≡ some (int32 (pos 200)))
unfolding check_message_response check_status same_int
check_message_response_lem msg = (λ h. check_status-eq-ok _ _ h, λ h. rw h)
