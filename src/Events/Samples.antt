-- ===== src/Events/Samples.antt =====
-- Events, and what the theorems say of them.
use agentic_gpu_platform.Events.{DomainEvent, is_terminal_for_run, plan_requested, run_failed}
use agentic_gpu_platform.Shared.{[], arith, false, length, some, ◌∷◌, ◌≡◌, ◌≤◌}
use agentic_gpu_platform.Enums.{FailureKind}
use agentic_gpu_platform.Errors.{ok}
use agentic_gpu_platform.Events.Codec.{decode_event, encode_event}
use agentic_gpu_platform.Events.Codec.Restored.{decode_event-encode_event}
use agentic_gpu_platform.Events.Bus.Delivery.{offer_items, offer_items-new, until_end}

abbrev failure : DomainEvent
failure = record {
  occurred_at = 5;
  event_id = 77;
  body = run_failed 1 FailureKind.inference "no answer";
}

abbrev request : DomainEvent
request = record { occurred_at = 4; event_id = 76; body = plan_requested 1 0 }

decode_event-encode_event_example : decode_event (encode_event failure) ≡ ok (some failure)
decode_event-encode_event_example = decode_event-encode_event failure

fits : length (until_end (request ∷ failure ∷ request ∷ [])) ≤ 10
unfolding until_end is_terminal_for_run
fits = omega arith

offer_items-new_example :
    (offer_items 10
      (request ∷ failure ∷ request ∷ [])
      (record { run_id = 1; queue = []; closed = false })).queue
    ≡ until_end (request ∷ failure ∷ request ∷ [])
offer_items-new_example = offer_items-new 10 1 (request ∷ failure ∷ request ∷ []) fits
