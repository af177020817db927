-- ===== src/Core/Errors.antt =====
-- backend/app/core/errors.py and the two exception handlers of backend/app/main.py.
use llm_inference_logger.Prelude.{ℕ, String, Bool, Option, none, some, List}
use llm_inference_logger.Domain.Json.{Json, Fields, lit, lits, bool, str, arr, obj, field, end}
use llm_inference_logger.Domain.Uuid.{print_uuid}

-- The class hierarchy, with the context that each class is raised with in this program.
pub data AppError : Type 0 where
  internal_error : String → AppError
  -- the message, and `conversation_id`
  not_found : String → ℕ → AppError
  validation_error : String → AppError
  -- the message, `requested` and `available`
  provider_not_configured : String → String → List String → AppError
  -- the message, `provider`, `requested_model` and `available_models`
  model_not_supported : String → String → String → List String → AppError
  -- the message, `provider`, `retryable`, and `error_type` where an adapter recorded it
  provider_error : String → String → Bool → Option String → AppError

-- What Python code may raise. `other` has the name of its type and its `str()`; it is a subclass
-- of Exception, which `cancelled` (CancelledError) and `generator_exit` are not.
pub data Exn : Type 0 where
  app : AppError → Exn
  cancelled : Exn
  generator_exit : Exn
  other : String → String → Exn

abbrev pub status_code : AppError → ℕ
status_code (internal_error _) = 500
status_code (not_found _ _) = 404
status_code (validation_error _) = 422
status_code (provider_not_configured _ _ _) = 400
status_code (model_not_supported _ _ _ _) = 400
status_code (provider_error _ _ _ _) = 502

abbrev pub error_code : AppError → String
error_code (internal_error _) = "internal_error"
error_code (not_found _ _) = "not_found"
error_code (validation_error _) = "validation_error"
error_code (provider_not_configured _ _ _) = "provider_not_configured"
error_code (model_not_supported _ _ _ _) = "model_not_supported"
error_code (provider_error _ _ _ _) = "provider_error"

abbrev pub error_message : AppError → String
error_message (internal_error m) = m
error_message (not_found m _) = m
error_message (validation_error m) = m
error_message (provider_not_configured m _ _) = m
error_message (model_not_supported m _ _ _) = m
error_message (provider_error m _ _ _) = m

abbrev pub error_context : AppError → Fields
error_context (internal_error _) = end
error_context (not_found _ c) = field "conversation_id" (str (print_uuid c)) end
error_context (validation_error _) = end
error_context (provider_not_configured _ r available) =
    field "requested" (lit r) (field "available" (arr (lits available)) end)
error_context (model_not_supported _ p m models) =
    field "provider" (lit p)
      (field "requested_model" (lit m) (field "available_models" (arr (lits models)) end))
error_context (provider_error _ p retryable none) =
    field "provider" (lit p) (field "retryable" (bool retryable) end)
error_context (provider_error _ p retryable (some t)) =
    field "provider" (lit p) (field "retryable" (bool retryable) (field "error_type" (lit t) end))

unfoldable pub to_payload : AppError → Json
to_payload e = obj (
    field "error"
      (obj (
        field "code" (lit (error_code e))
          (field "message" (lit (error_message e)) (error_context e))))
      end)

pub record Response : Type 0 where
  pub status : ℕ
  pub content : Json

-- `handle_app_error` and `handle_unexpected`. What is no Exception passes both handlers.
unfoldable pub respond : Exn → Option Response
unfolding to_payload
respond (app e) = some (record { status = status_code e; content = to_payload e })
respond cancelled = none
respond generator_exit = none
respond (other _ _) = some (record {
  status = 500;
  content = obj (
      field "error"
        (obj
          (field "code" (lit "internal_error") (field "message" (lit "Internal server error") end)))
        end);
})
