-- ===== src/Domain/Event.antt =====
-- backend/app/domain/events.py: the event contract. The schema's declared constraints and the
-- model's validator are code of this program; turning JSON into typed fields is pydantic's.
use llm_inference_logger.Prelude.{
  ℕ, ℤ, pos, String, Text, Bool, true, false, ◌&&◌, Option, none, some, len, leb, ltb, str_eq,
  is_nonneg, if◌then◌else◌,
}
use llm_inference_logger.Domain.Enums.{InferenceStatus, is_error}
use llm_inference_logger.Domain.Json.{Dict}

abbrev pub schema_version_now : ℤ
schema_version_now = pos 1

abbrev pub event_type_inference : String
event_type_inference = "inference.completed"

-- The fields of `InferenceEvent`, typed. Times are microseconds of the wall clock.
pub record InferenceEvent : Type 0 where
  pub schema_version : ℤ
  pub event_type : String
  pub id : ℕ
  pub conversation_id : Option ℕ
  pub message_id : Option ℕ
  pub provider : String
  pub model : String
  pub status : InferenceStatus
  pub streamed : Bool
  pub started_at : ℕ
  pub completed_at : ℕ
  pub latency_ms : Option ℤ
  pub ttft_ms : Option ℤ
  pub input_tokens : Option ℤ
  pub output_tokens : Option ℤ
  pub input_preview : Option Text
  pub output_preview : Option Text
  pub error_type : Option String
  pub error_message : Option String
  pub finish_reason : Option String
  pub raw_metadata : Option Dict

-- `Field(default=None, ge=0)`
abbrev pub opt_nonneg : Option ℤ → Bool
opt_nonneg none = true
opt_nonneg (some z) = is_nonneg z

-- `Field(default=None, max_length=n)`
abbrev pub opt_at_most : ℕ → Option String → Bool
opt_at_most n none = true
opt_at_most n (some s) = leb (len s) n

-- `Field(min_length=lo, max_length=hi)`
abbrev pub len_between : ℕ → ℕ → String → Bool
len_between lo hi s = leb lo (len s) && leb (len s) hi

-- The constraints that the fields declare.
unfoldable pub fields_ok : InferenceEvent → Bool
fields_ok e =
    str_eq e.event_type event_type_inference
    && len_between 1 64 e.provider
    && len_between 1 128 e.model
    && opt_nonneg e.latency_ms
    && opt_nonneg e.ttft_ms
    && opt_nonneg e.input_tokens
    && opt_nonneg e.output_tokens
    && opt_at_most 128 e.error_type
    && opt_at_most 64 e.finish_reason

-- `not error_message`
abbrev pub is_blank : Option String → Bool
is_blank none = true
is_blank (some s) = str_eq s ""

-- `_check_invariants`, as a test: false is one of its two ValueErrors.
unfoldable pub check_invariants : InferenceEvent → Bool
check_invariants e =
    if ltb e.completed_at e.started_at
    then false
    else if is_error e.status && is_blank e.error_message
    then false
    else true

-- Whether the constructor, or `model_validate` on typed fields, accepts.
unfoldable pub is_valid : InferenceEvent → Bool
unfolding fields_ok check_invariants
is_valid e = fields_ok e && check_invariants e
