-- ===== src/Db/Tables.antt =====
-- backend/app/db/models.py: the rows, and the constraints that Postgres enforces on an insert.
use llm_inference_logger.Prelude.{
  ℕ, ℤ, String, Text, Bool, true, ◌&&◌, Option, none, some, List, [], ◌∷◌, len, leb, ◌==◌,
  fits_int4, if◌then◌else◌, is_some,
}
use llm_inference_logger.Domain.Enums.{
  ConversationStatus, MessageRole, InferenceStatus, ProcessingStatus,
}
use llm_inference_logger.Domain.Json.{Dict}
use llm_inference_logger.Domain.Event.{InferenceEvent, opt_nonneg, opt_at_most}
use llm_inference_logger.Db.Texts.{
  is_storable_name, opt_storable, opt_storable_name, opt_dict_storable,
}

pub record Conversation : Type 0 where
  pub id : ℕ
  pub title : Option Text
  pub status : ConversationStatus
  pub created_at : ℕ
  pub updated_at : ℕ

pub record Message : Type 0 where
  pub id : ℕ
  pub conversation_id : ℕ
  pub role : MessageRole
  pub content : Text
  pub seq : ℕ
  pub created_at : ℕ

pub record InferenceLog : Type 0 where
  pub id : ℕ
  pub schema_version : ℤ
  pub conversation_id : Option ℕ
  pub message_id : Option ℕ
  pub provider : String
  pub model : String
  pub status : InferenceStatus
  pub streamed : Bool
  pub started_at : ℕ
  pub completed_at : ℕ
  pub ingested_at : ℕ
  pub latency_ms : Option ℤ
  pub ttft_ms : Option ℤ
  pub input_tokens : Option ℤ
  pub output_tokens : Option ℤ
  pub input_preview : Option Text
  pub output_preview : Option Text
  pub error_type : Option String
  pub error_message : Option String
  pub finish_reason : Option String
  pub raw_metadata : Option Dict

-- `payload` is the event as it was delivered; its type is the transport's.
pub record RawEvent (Payload : Type 0) : Type 0 where
  pub id : ℕ
  pub event_type : Text
  pub payload : Payload
  pub received_at : ℕ
  pub processed_at : Option ℕ
  pub processing_status : ProcessingStatus
  pub processing_error : Option Text

pub record Db (Payload : Type 0) : Type 0 where
  pub conversations : List Conversation
  pub messages : List Message
  pub inference_logs : List InferenceLog
  pub raw_events : List (RawEvent Payload)

abbrev pub empty_db : (Payload : Type 0) → Db Payload
empty_db _ = record { conversations = []; messages = []; inference_logs = []; raw_events = [] }

-- `session.get(Conversation, id)`: the row with a primary key.
abbrev pub find_conversation : ℕ → List Conversation → Option Conversation
find_conversation i [] = none
find_conversation i (c ∷ cs) = if c.id == i then some c else find_conversation i cs

abbrev pub find_message : ℕ → List Message → Option Message
find_message i [] = none
find_message i (m ∷ ms) = if m.id == i then some m else find_message i ms

unfoldable pub find_log : ℕ → List InferenceLog → Option InferenceLog
find_log i [] = none
find_log i (l ∷ ls) = if l.id == i then some l else find_log i ls

unfoldable pub find_raw : {P : Type 0} → ℕ → List (RawEvent P) → Option (RawEvent P)
find_raw i [] = none
find_raw i (r ∷ rs) = if r.id == i then some r else find_raw i rs

-- A nullable foreign key holds null or the id of a row that exists.
abbrev pub conversation_fk : Option ℕ → List Conversation → Bool
conversation_fk none cs = true
conversation_fk (some i) cs = is_some (find_conversation i cs)

abbrev pub message_fk : Option ℕ → List Message → Bool
message_fk none ms = true
message_fk (some i) ms = is_some (find_message i ms)

abbrev pub opt_int4 : Option ℤ → Bool
opt_int4 none = true
opt_int4 (some z) = fits_int4 z

-- The texts of a row, which their columns have to take.
unfoldable pub log_texts_ok : InferenceLog → Bool
log_texts_ok l =
    is_storable_name l.provider
    && is_storable_name l.model
    && opt_storable l.input_preview
    && opt_storable l.output_preview
    && opt_storable_name l.error_type
    && opt_storable_name l.error_message
    && opt_storable_name l.finish_reason
    && opt_dict_storable l.raw_metadata

-- The column types of `inference_logs`: 32-bit integers, bounded strings, and texts that Postgres
-- takes.
unfoldable pub log_types_ok : InferenceLog → Bool
unfolding log_texts_ok
log_types_ok l =
    fits_int4 l.schema_version
    && opt_int4 l.latency_ms
    && opt_int4 l.ttft_ms
    && opt_int4 l.input_tokens
    && opt_int4 l.output_tokens
    && leb (len l.provider) 64
    && leb (len l.model) 128
    && opt_at_most 128 l.error_type
    && opt_at_most 64 l.finish_reason
    && log_texts_ok l

-- Its five CHECK constraints.
unfoldable pub log_checks_ok : InferenceLog → Bool
log_checks_ok l =
    opt_nonneg l.latency_ms
    && opt_nonneg l.ttft_ms
    && opt_nonneg l.input_tokens
    && opt_nonneg l.output_tokens
    && leb l.started_at l.completed_at

-- `InferenceEvent.to_row`: the column values, beside which the database sets `ingested_at`.
unfoldable pub to_row : ℕ → InferenceEvent → InferenceLog
to_row now e = record {
  id = e.id;
  schema_version = e.schema_version;
  conversation_id = e.conversation_id;
  message_id = e.message_id;
  provider = e.provider;
  model = e.model;
  status = e.status;
  streamed = e.streamed;
  started_at = e.started_at;
  completed_at = e.completed_at;
  ingested_at = now;
  latency_ms = e.latency_ms;
  ttft_ms = e.ttft_ms;
  input_tokens = e.input_tokens;
  output_tokens = e.output_tokens;
  input_preview = e.input_preview;
  output_preview = e.output_preview;
  error_type = e.error_type;
  error_message = e.error_message;
  finish_reason = e.finish_reason;
  raw_metadata = e.raw_metadata;
}
