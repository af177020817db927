-- ===== src/Instrumentation/Wrapper.antt =====
-- backend/app/instrumentation/wrapper.py: `InstrumentedProvider.stream_chat`, over one call.
pub mod Once
pub mod Fields
pub mod Lost
mod Tests
use llm_inference_logger.Prelude.{
  text_or, name_or, ℕ, ◌-◌, ◌/◌, String, Bool, true, false, not, Option, none, some, List, [], ◌∷◌,
  ◌++◌, map, reverse, str_eq, Text, join, if◌then◌else◌, ℤ, pos,
}
use llm_inference_logger.Providers.Base.{
  ChatMessage, TokenUsage, StreamChunk, ChatRequest, Ending, finished, raised, deltas, latest,
}
use llm_inference_logger.Domain.Enums.{MessageRole, is_user, InferenceStatus}
use llm_inference_logger.Domain.Event.{
  is_valid, InferenceEvent, schema_version_now, event_type_inference,
}
use llm_inference_logger.Core.Errors.{
  AppError, Exn, app, internal_error, other, provider_error, not_found, error_message,
  validation_error, provider_not_configured, model_not_supported,
}
use llm_inference_logger.Domain.Json.{Dict, update}
use llm_inference_logger.Instrumentation.Redaction.{Redactor, preview}

-- `_merge_usage`
unfoldable pub merge_usage : TokenUsage → Option TokenUsage → TokenUsage
merge_usage current none = current
merge_usage current (some u) = record {
  input_tokens = latest u.input_tokens current.input_tokens;
  output_tokens = latest u.output_tokens current.output_tokens;
}

-- `error_type`, `error_message` and `status` of the event.
pub record Verdict : Type 0 where
  pub status : InferenceStatus
  pub error_type : Option String
  pub error_message : Option String

-- `type(exc).__name__`
abbrev pub class_name : AppError → String
class_name (internal_error _) = "AppError"
class_name (not_found _ _) = "NotFoundError"
class_name (validation_error _) = "ValidationError"
class_name (provider_not_configured _ _ _) = "ProviderNotConfiguredError"
class_name (model_not_supported _ _ _ _) = "ModelNotSupportedError"
class_name (provider_error _ _ _ _) = "ProviderError"

-- `exc.context.get("error_type")` of a ProviderError.
abbrev pub recorded_type : AppError → Option String
recorded_type (provider_error _ _ _ t) = t
recorded_type _ = none

abbrev pub failure : String → String → Verdict
failure kind message = record {
  status = InferenceStatus.error;
  error_type = some kind;
  error_message = some message;
}

abbrev pub cancellation : Verdict
cancellation = record {
  status = InferenceStatus.cancelled;
  error_type = none;
  error_message = some "Cancelled by client";
}

-- `_classify`
unfoldable pub classify : Exn → Verdict
classify Exn.cancelled = cancellation
classify Exn.generator_exit = cancellation
classify (app (provider_error m p r t)) = failure (name_or t "ProviderError") m
classify (app e) = failure (class_name e) (text_or (error_message e) (class_name e))
classify (other kind text) = failure kind (text_or text kind)

-- The locals at the end of the `try`.
unfoldable pub verdict_of : Ending → Verdict
unfolding classify
verdict_of finished = record {
  status = InferenceStatus.success;
  error_type = none;
  error_message = none;
}
verdict_of (raised e) = classify e

-- The last user message of the list that is walked from the end, `_last_user_text`.
unfoldable pub first_user : List ChatMessage → Option Text
first_user [] = none
first_user (m ∷ ms) = if is_user m.role then some m.content else first_user ms

unfoldable pub last_user_text : ChatRequest → Option Text
unfolding first_user
last_user_text request = first_user (reverse request.messages)

-- A chunk of the inner stream, and the monotonic clock in microseconds when it was looked at.
pub record Arrival : Type 0 where
  pub chunk : StreamChunk
  pub clock : ℕ

-- What one call met: its clocks, the chunks that came, and how the loop stopped. An interruption
-- by the consumer, at a `yield` or at a wait, is an exception that stops the loop; one that comes
-- while the publish is awaited is `cancelled_in_publish`.
pub record Call : Type 0 where
  pub event_id : ℕ
  pub started_at : ℕ
  pub start : ℕ
  pub arrivals : List Arrival
  pub ending : Ending
  pub completed_at : ℕ
  pub stop : ℕ
  pub cancelled_in_publish : Bool

-- The locals that the loop updates.
pub record Tally : Type 0 where
  pub ttft_ms : Option ℤ
  pub chunks : List Text
  pub usage : TokenUsage
  pub finish_reason : Option String
  pub provider_metadata : Dict

abbrev pub new_tally : Tally
new_tally = record {
  ttft_ms = none;
  chunks = [];
  usage = record { input_tokens = none; output_tokens = none };
  finish_reason = none;
  provider_metadata = [];
}

-- `int((time.monotonic() - start) * 1000)`. The clock never goes back, so the truncated difference
-- is the difference.
abbrev pub elapsed_ms : ℕ → ℕ → ℤ
elapsed_ms start clock = pos ((clock - start) / 1000)

-- `not text`
abbrev pub is_empty : Text → Bool
is_empty [] = true
is_empty (_ ∷ _) = false

-- `ttft_ms` after a chunk.
abbrev pub first_token : Option ℤ → Text → ℤ → Option ℤ
first_token none text elapsed = if is_empty text then none else some elapsed
first_token (some t) text elapsed = some t

-- `chunk.finish_reason or finish_reason`
abbrev pub reason_or : Option String → Option String → Option String
reason_or none old = old
reason_or (some r) old = if str_eq r "" then old else some r

-- One round of the loop.
unfoldable pub observe : ℕ → Tally → Arrival → Tally
unfolding merge_usage
observe start t a = record {
  ttft_ms = first_token t.ttft_ms a.chunk.delta_text (elapsed_ms start a.clock);
  chunks = t.chunks ++ a.chunk.delta_text ∷ [];
  usage = merge_usage t.usage a.chunk.usage;
  finish_reason = reason_or a.chunk.finish_reason t.finish_reason;
  provider_metadata = update t.provider_metadata a.chunk.metadata;
}

unfoldable pub observe_all : ℕ → Tally → List Arrival → Tally
unfolding observe
observe_all start t [] = t
observe_all start t (a ∷ as_) = observe_all start (observe start t a) as_

-- `dict(metadata) or None`
abbrev pub dict_or_none : Dict → Option Dict
dict_or_none [] = none
dict_or_none (f ∷ d) = some (f ∷ d)

-- `InstrumentedProvider.__init__`
pub record Wrapped : Type 0 where
  pub inner_name : String
  pub conversation_id : Option ℕ
  pub streamed : Bool
  pub redactor : Redactor

-- What a consumer of the wrapped stream gets, and what is handed to the bus.
pub record Traced : Type 0 where
  pub yielded : List StreamChunk
  pub ending : Ending
  pub published : List InferenceEvent

-- pydantic's exception, raised in the `finally` where the event does not validate. It replaces
-- whatever the loop had raised.
abbrev pub invalid_event : Exn
invalid_event = other "ValidationError" "the event does not validate"

-- The await of `_publish_resiliently`: the publish runs in a task of its own behind a shield, so
-- a cancellation ends the await and not the publish.
abbrev pub after_publish : Call → Ending
after_publish c = if c.cancelled_in_publish then raised Exn.cancelled else c.ending

module _ (w : Wrapped) (request : ChatRequest) where
  -- The event that the `finally` builds.
  unfoldable pub build_event : Call → InferenceEvent
  unfolding verdict_of observe_all
  build_event c =
      let t = observe_all c.start new_tally c.arrivals in
      let v = verdict_of c.ending in
      record {
        schema_version = schema_version_now;
        event_type = event_type_inference;
        id = c.event_id;
        conversation_id = w.conversation_id;
        message_id = none;
        provider = w.inner_name;
        model = request.model;
        status = v.status;
        streamed = w.streamed;
        started_at = c.started_at;
        completed_at = c.completed_at;
        latency_ms = some (elapsed_ms c.start c.stop);
        ttft_ms = t.ttft_ms;
        input_tokens = t.usage.input_tokens;
        output_tokens = t.usage.output_tokens;
        input_preview = preview w.redactor (last_user_text request);
        output_preview = preview w.redactor (some (join t.chunks));
        error_type = v.error_type;
        error_message = v.error_message;
        finish_reason = t.finish_reason;
        raw_metadata = dict_or_none t.provider_metadata;
      }

  -- `stream_chat`. A bus does not raise, by its contract.
  unfoldable pub stream_chat : Call → Traced
  unfolding build_event
  stream_chat c = record {
    yielded = map (λ a. a.chunk) c.arrivals;
    ending = if is_valid (build_event c) then after_publish c else raised invalid_event;
    published = if is_valid (build_event c) then build_event c ∷ [] else [];
  }
