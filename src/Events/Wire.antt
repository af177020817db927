-- ===== src/Events/Wire.antt =====
-- What pydantic and json do for the event contract: turning an event into a payload, and reading a
-- payload back into typed fields. They are parameters; the schema's own constraints are not.
use llm_inference_logger.Prelude.{ℕ, String, Text, Option, none, some, ◌≡◌, if◌then◌else◌, codes}
use llm_inference_logger.Prelude.Outcome.{Result, ok, err}
use llm_inference_logger.Domain.Json.{Json, str, lit}
use llm_inference_logger.Domain.Uuid.{print_uuid, parse_uuid}
use llm_inference_logger.Domain.Event.{InferenceEvent, is_valid, event_type_inference}

pub record Wire : Type 1 where
  -- A decoded JSON object, `dict[str, Any]`. The worker is not followed on another value of JSON,
  -- which has no `get`.
  pub Payload : Type 0
  -- `payload.get(key)`
  pub get : Payload → String → Option Json
  -- `event.model_dump(mode="json")`
  pub dump : InferenceEvent → Payload
  -- The typed fields of a payload that has the right keys, with values of the right types.
  pub fields : Payload → Option InferenceEvent
  -- `exc.json()` of the ValidationError for a payload.
  pub report : Payload → Text
  -- `str(value)` of a JSON value.
  pub to_str : Json → Text

-- What the code relies on: a dumped event is read back, its id is dumped as `str(uuid)` under
-- "id", its type under "event_type", and `str` of a string is that string.
pub record IsLawful (W : Wire) : Type 0 where
  pub fields-dump : (e : InferenceEvent) → W.fields (W.dump e) ≡ some e
  pub get-id : (e : InferenceEvent) → W.get (W.dump e) "id" ≡ some (str (print_uuid e.id))
  pub get-event_type :
      (e : InferenceEvent) → W.get (W.dump e) "event_type" ≡ some (lit e.event_type)
  pub to_str-str : (t : Text) → W.to_str (str t) ≡ t

module _ (W : Wire) where
  -- `InferenceEvent.model_validate`; an error is the ValidationError's report.
  unfoldable pub model_validate : W.Payload → Result Text InferenceEvent
  model_validate p = elim (W.fields p) [
    | none ↦ err (W.report p)
    | some e ↦ if is_valid e then ok e else err (W.report p)
  ]

  -- `_extract_id` of backend/app/worker/consumer.py
  unfoldable pub extract_id : W.Payload → Option ℕ
  extract_id p = elim (W.get p "id") [
    | none ↦ none
    | some raw ↦ elim raw [ str t ↦ parse_uuid t | _ ↦ none ]
  ]

  -- `str(item.payload.get("event_type", EVENT_TYPE_INFERENCE))`
  unfoldable pub event_type_of : W.Payload → Text
  event_type_of p = elim (W.get p "event_type") [
    | none ↦ codes event_type_inference
    | some v ↦ W.to_str v
  ]
