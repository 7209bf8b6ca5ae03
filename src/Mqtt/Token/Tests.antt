-- ===== src/Mqtt/Token/Tests.antt =====
-- A run of `contextToken`.
use golang_iothub.Base.{◌≡◌, inl, refl, Option, none, some, true, false, Error}
use golang_iothub.Mqtt.Token.Ending.{context_token_ends}
use golang_iothub.Mqtt.Token.{
  checking, ended, returned, Wait, completes, times_out, Reach, here, next, init,
}

-- After one timeout the token completes.
abbrev succeeded : Wait
succeeded = record init { waiter = checking; token = some none }

succeeded-Reach : Reach init succeeded
succeeded-Reach = next (next here (times_out refl refl)) (completes none refl refl)

context_token_ends_example :
    (s' : Wait) × (r : Option Error) × Reach succeeded s'
    × (s'.waiter ≡ ended)
    × (s'.caller ≡ returned r)
    × (s'.token ≡ some none)
    × (s'.is_cancelled ≡ false)
context_token_ends_example = context_token_ends succeeded succeeded-Reach (inl (none, refl))

abbrev over : Wait
over = record succeeded { waiter = ended; is_done = true; caller = returned none }
