-- ===== src/Instrumentation/Wrapper/Tests.antt =====
-- A streamed call that ends well, one whose consumer leaves, one whose wall clock was set back, and
-- the theorems on them.
use llm_inference_logger.Prelude.{
  ℕ, String, ◌≡◌, refl, true, false, ◌&&◌, Option, none, some, [], ◌∷◌, map, arith, codes, ltb,
  if◌then◌else◌, ℤ, pos,
}
use llm_inference_logger.Domain.Enums.{MessageRole}
use llm_inference_logger.Core.Errors.{Exn}
use llm_inference_logger.Providers.Base.{ChatRequest, TokenUsage, Ending, finished, raised}
use llm_inference_logger.Instrumentation.Redaction.{Redactor, preview, redact, clip, apply_rules}
use llm_inference_logger.Instrumentation.Wrapper.{
  Wrapped, Call, Arrival, build_event, stream_chat, invalid_event, last_user_text,
}
use llm_inference_logger.Instrumentation.Wrapper.Once.{one-event-per-call, Publishable}
use llm_inference_logger.Instrumentation.Wrapper.Lost.{Refused-loses_call, clock_back}

abbrev redactor : Redactor
redactor = record {
  max_chars = 6;
  enabled = true;
  rules =
      record {
        name = "digits";
        sub = λ placeholder t. map (λ c. if ltb 47 c && ltb c 58 then 35 else c) t;
        placeholder = codes "#";
      }
      ∷ [];
}

abbrev wrapped : Wrapped
wrapped = record {
  inner_name = "mock";
  conversation_id = some 4;
  streamed = true;
  redactor = redactor;
}

abbrev request : ChatRequest
request = record {
  messages =
      record { role = MessageRole.user; content = codes "call 555" }
      ∷ record { role = MessageRole.assistant; content = codes "ok" }
      ∷ [];
  model = "mock-small";
  max_output_tokens = 16;
  system = none;
}

abbrev usage_of : Option ℤ → Option ℤ → TokenUsage
usage_of i o = record { input_tokens = i; output_tokens = o }

abbrev arrival : String → Option TokenUsage → ℕ → Arrival
arrival t u clock = record {
  chunk = record { delta_text = codes t; finish_reason = none; usage = u; metadata = [] };
  clock = clock;
}

abbrev call : ℕ → Ending → Call
call completed ending = record {
  event_id = 9;
  started_at = 100;
  start = 1000;
  arrivals =
      arrival "" (some (usage_of (some (pos 3)) none)) 2500
      ∷ arrival "hel" none 4000
      ∷ arrival "lo" (some (usage_of none (some (pos 2)))) 5000
      ∷ [];
  ending = ending;
  completed_at = completed;
  stop = 6000;
  cancelled_in_publish = false;
}

-- The first chunk with text came three milliseconds after the start; the preview is cut before it
-- is redacted.
measured :
    ((build_event wrapped request (call 104 finished)).ttft_ms ≡ some (pos 3))
    × ((build_event wrapped request (call 104 finished)).input_tokens ≡ some (pos 3))
    × ((build_event wrapped request (call 104 finished)).output_tokens ≡ some (pos 2))
    × ((build_event wrapped request (call 104 finished)).input_preview ≡ some (codes "call #…"))
unfolding build_event preview last_user_text redact clip apply_rules
measured = (refl, refl, refl, refl)

publishable : Publishable wrapped request (call 104 (raised Exn.cancelled))
publishable = record {
  named = (omega arith, omega arith);
  model = (omega arith, omega arith);
  forward = omega arith;
  ends_well = tt;
  arrivals = (
    record { input = refl; output = refl; reason = refl },
    (
      record { input = refl; output = refl; reason = refl },
      (record { input = refl; output = refl; reason = refl }, tt),
    ),
  );
}

one-event-per-call_example :
    let c = call 104 (raised Exn.cancelled) in
    let t = stream_chat wrapped request c in
    (t.published ≡ build_event wrapped request c ∷ [])
    × (t.yielded ≡ map (λ a. a.chunk) c.arrivals)
    × (t.ending ≡ raised Exn.cancelled)
one-event-per-call_example =
    one-event-per-call wrapped request (call 104 (raised Exn.cancelled)) publishable

Refused-loses_call_example :
    ((stream_chat wrapped request (call 99 finished)).published ≡ [])
    × ((stream_chat wrapped request (call 99 finished)).ending ≡ raised invalid_event)
Refused-loses_call_example =
    Refused-loses_call wrapped request (call 99 finished) (clock_back (omega arith))
