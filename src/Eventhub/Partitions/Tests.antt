-- ===== src/Eventhub/Partitions/Tests.antt =====
-- Runs of `SubscribePartitions`.
use golang_iothub.Base.{
  ◌≤◌, ◌<◌, ◌≡◌, ◌↔◌, refl, [], ◌∷◌, ◌++◌, length, arith, update, none, Error, context_done,
}
use golang_iothub.Common.AmqpMessage.{AmqpMessage}
use golang_iothub.Eventhub.Partitions.Order.{only, in_hand, in_order}
use golang_iothub.Eventhub.Partitions.Channels.{capacity}
use golang_iothub.Eventhub.Partitions.Progress.{can_return_iff}
use golang_iothub.Eventhub.Partitions.Draining.{can_deliver}
use golang_iothub.Eventhub.Partitions.Leaks.{can_end_iff}
use golang_iothub.Eventhub.Partitions.{
  serving, returned, receiving, stopped, holding, failing, System, Step, move, open_next,
  open_fails, all_open, receives, receive_fails, passes, Reach, here, next, init,
}

abbrev message : AmqpMessage
message = record { payloads = []; properties = none; annotations = []; application_properties = [] }

-- The states of a run with one partition: its receiver opens, and the `select` runs.
abbrev ready : System
ready = record init { opened = 1; workers = update init.workers 0 receiving; main = serving }

ready-Reach : Reach 1 init ready
ready-Reach = next (next here (open_next refl (omega arith) refl)) (all_open refl refl refl)

-- The goroutine receives a message, passes it on, and receives another.
abbrev second : System
second = record ready {
  workers =
      update (update (update ready.workers 0 (holding message)) 0 receiving) 0 (holding message);
  received = update (update ready.received 0 (message ∷ [])) 0 (message ∷ message ∷ []);
  msgc = (0, message) ∷ [];
}

second-Reach : Reach 1 init second
second-Reach =
    next
      (next (next ready-Reach (receives 0 message refl refl))
        (passes 0 message refl (omega arith) refl))
      (receives 0 message refl refl)

in_order_example :
    only 0 second.handed ++ (only 0 second.msgc ++ in_hand (second.workers 0)) ≡ second.received 0
in_order_example = in_order 1 0 second second-Reach

can_return_iff_example :
    ((s' : System) × (e : Error) × Reach 1 second s' × (s'.main ≡ returned e)) ↔ (0 < 1)
can_return_iff_example = can_return_iff 1 second second-Reach refl

-- The first `Receive` fails.
abbrev broken : System
broken = record ready { workers = update ready.workers 0 (failing context_done) }

broken-Reach : Reach 1 init broken
broken-Reach = next ready-Reach (receive_fails 0 context_done refl refl)

capacity_example :
    (length broken.msgc ≤ 1)
    × (length broken.errc ≤ 1)
    × (broken.workers 0 ≡ failing context_done
        → Step 1 broken (record (move broken 0 stopped) { errc = context_done ∷ [] }))
capacity_example = capacity 1 0 context_done broken broken-Reach

-- Of two partitions the first has its receiver, and three messages have come, when the second
-- receiver fails to open: two fill the channel, and the goroutine holds the third.
abbrev take_one : System → System
take_one s = record (move s 0 (holding message)) {
  received = update s.received 0 (s.received 0 ++ message ∷ []);
}

abbrev pass_one : System → System
pass_one s = record (move s 0 receiving) { msgc = s.msgc ++ (0, message) ∷ [] }

abbrev one_open : System
one_open = record (move init 0 receiving) { opened = 1 }

abbrev full : System
full = take_one (pass_one (take_one (pass_one (take_one one_open))))

abbrev left : System
left = record full { main = returned context_done }

left-Reach : Reach 2 init left
left-Reach =
    let one : Reach 2 init (pass_one (take_one one_open)) =
      next (next (next here (open_next refl (omega arith) refl)) (receives 0 message refl refl))
        (passes 0 message refl (omega arith) refl) in
    let two : Reach 2 init full =
      next
        (next (next one (receives 0 message refl refl)) (passes 0 message refl (omega arith) refl))
        (receives 0 message refl refl) in
    next two (open_fails context_done refl (omega arith) refl)

can_end_iff_example :
    ((s' : System) × Reach 2 left s' × (s'.workers 0 ≡ stopped)) ↔ (length left.msgc < 2)
can_end_iff_example = can_end_iff 2 0 message context_done left left-Reach refl refl

can_deliver_example :
    (s' : System) × Reach 1 second s'
    × (s'.received 0 ≡ message ∷ message ∷ [])
    × (only 0 s'.handed ≡ message ∷ message ∷ [])
can_deliver_example = can_deliver 1 0 second second-Reach refl
