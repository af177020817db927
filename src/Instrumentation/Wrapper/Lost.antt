-- ===== src/Instrumentation/Wrapper/Lost.antt =====
-- Calls that the schema has no room for: the `finally` raises, and the call is lost to the log.
use llm_inference_logger.Prelude.{◌<◌, String, ◌≡◌, Bool, false, Option, [], arith, len}
use llm_inference_logger.Instrumentation.Wrapper.{
  Wrapped, build_event, Call, invalid_event, stream_chat,
}
use llm_inference_logger.Providers.Base.{ChatRequest, raised}
use llm_inference_logger.Domain.Event.{is_valid}
use llm_inference_logger.Core.Errors.{app, provider_error}

-- What makes the schema refuse the event of a call.
pub data Refused (w : Wrapped) (request : ChatRequest) (c : Call) : Type 0 where
  -- the wall clock was set back during the call
  clock_back : c.completed_at < c.started_at → Refused w request c
  -- the model name is longer than its column
  long_model : 128 < len request.model → Refused w request c
  -- the provider failed with a ProviderError whose text is empty
  blank_failure :
      (p : String) (r : Bool) (t : Option String)
      → c.ending ≡ raised (app (provider_error "" p r t))
      → Refused w request c

Refused-is_valid :
    (w : Wrapped) (request : ChatRequest) (c : Call)
    → Refused w request c
    → is_valid (build_event w request c) ≡ false
unfolding build_event is_valid
Refused-is_valid w request c (clock_back h) = ground arith
Refused-is_valid w request c (long_model h) = ground arith
Refused-is_valid w request c (blank_failure p r t h) = rw h (ground arith)

-- A call whose wall clock was set back, whose model name has more than 128 characters, or whose
-- provider failed with a ProviderError whose text is empty publishes nothing and ends with a
-- validation error, in place of the reply's own end or of the provider's error.
pub Refused-loses_call :
    (w : Wrapped) (request : ChatRequest) (c : Call)
    → Refused w request c
    → ((stream_chat w request c).published ≡ [])
      × ((stream_chat w request c).ending ≡ raised invalid_event)
unfolding stream_chat
Refused-loses_call w request c r =
    let invalid = Refused-is_valid w request c r in (rw invalid, rw invalid)
