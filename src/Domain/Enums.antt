-- ===== src/Domain/Enums.antt =====
-- backend/app/domain/enums.py: each StrEnum is a data type, and its stored text a function.
use llm_inference_logger.Prelude.{String, Bool, true, false}

pub data ConversationStatus : Type 0 where
  active cancelled archived : ConversationStatus

pub data MessageRole : Type 0 where
  user assistant system : MessageRole

pub data InferenceStatus : Type 0 where
  success error cancelled : InferenceStatus

pub data ProcessingStatus : Type 0 where
  pending processed failed : ProcessingStatus

abbrev pub status_value : InferenceStatus → String
status_value InferenceStatus.success = "success"
status_value InferenceStatus.error = "error"
status_value InferenceStatus.cancelled = "cancelled"

abbrev pub role_value : MessageRole → String
role_value MessageRole.user = "user"
role_value MessageRole.assistant = "assistant"
role_value MessageRole.system = "system"

-- `role is MessageRole.USER`
abbrev pub is_user : MessageRole → Bool
is_user MessageRole.user = true
is_user MessageRole.assistant = false
is_user MessageRole.system = false

-- `status is InferenceStatus.ERROR`, and the two other tests that queries make.
abbrev pub is_error : InferenceStatus → Bool
is_error InferenceStatus.success = false
is_error InferenceStatus.error = true
is_error InferenceStatus.cancelled = false

abbrev pub is_cancelled : InferenceStatus → Bool
is_cancelled InferenceStatus.success = false
is_cancelled InferenceStatus.error = false
is_cancelled InferenceStatus.cancelled = true

-- `InferenceLog.status == status`
abbrev pub same_status : InferenceStatus → InferenceStatus → Bool
same_status InferenceStatus.success InferenceStatus.success = true
same_status InferenceStatus.error InferenceStatus.error = true
same_status InferenceStatus.cancelled InferenceStatus.cancelled = true
same_status _ _ = false

abbrev pub is_pending : ProcessingStatus → Bool
is_pending ProcessingStatus.pending = true
is_pending ProcessingStatus.processed = false
is_pending ProcessingStatus.failed = false

abbrev pub is_failed : ProcessingStatus → Bool
is_failed ProcessingStatus.pending = false
is_failed ProcessingStatus.processed = false
is_failed ProcessingStatus.failed = true

abbrev pub conversation_value : ConversationStatus → String
conversation_value ConversationStatus.active = "active"
conversation_value ConversationStatus.cancelled = "cancelled"
conversation_value ConversationStatus.archived = "archived"

abbrev pub processing_value : ProcessingStatus → String
processing_value ProcessingStatus.pending = "pending"
processing_value ProcessingStatus.processed = "processed"
processing_value ProcessingStatus.failed = "failed"
