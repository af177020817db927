-- ===== src/Db/Migrations/Declared.antt =====
-- The tables that backend/app/db/models.py declares, with the conventions of backend/app/db/base.py:
-- what `Base.metadata.create_all` would create.
use llm_inference_logger.Prelude.{String, ◌<>◌, true, false, Option, none, some, List, [], ◌∷◌, map}
use llm_inference_logger.Db.Migrations.{
  ColumnType, Table, Key, OnDelete, Check, Column, set_null, Where, enum_text, timestamp, uuid,
  ForeignKey, text, integer, Index, string, desc, asc, jsonb, equals, cascade, boolean, differs,
}
use llm_inference_logger.Domain.Enums.{
  role_value, conversation_value, status_value, ConversationStatus, MessageRole, processing_value,
  InferenceStatus, ProcessingStatus,
}

-- `NAMING_CONVENTION`
abbrev pk_name : String → String
pk_name table = "pk_" <> table

abbrev fk_name : String → String → String → String
fk_name table column target = "fk_" <> table <> "_" <> column <> "_" <> target

abbrev ck_name : String → String → String
ck_name table constraint = "ck_" <> table <> "_" <> constraint

-- `_enum`: the values, not the names.
abbrev enum_ {ℓ} : {A : Type ℓ} → (A → String) → String → List A → ColumnType
enum_ value name members = enum_text name (map value members)

-- `uuid_pk`, and a column `Mapped[uuid.UUID]` with `primary_key=True`.
abbrev uuid_pk : Column
uuid_pk = record { name = "id"; kind = uuid; nullable = false; server_default = none }

abbrev mapped : String → ColumnType → Column
mapped n k = record { name = n; kind = k; nullable = false; server_default = none }

-- `Mapped[... | None]`
abbrev mapped_option : String → ColumnType → Column
mapped_option n k = record { name = n; kind = k; nullable = true; server_default = none }

-- `server_default=func.now()`
abbrev mapped_now : String → Column
mapped_now n = record {
  name = n;
  kind = timestamp;
  nullable = false;
  server_default = some "now()";
}

-- `TimestampMixin`
abbrev timestamp_mixin : List Column
timestamp_mixin = mapped_now "created_at" ∷ mapped_now "updated_at" ∷ []

abbrev foreign_key : String → String → String → OnDelete → ForeignKey
foreign_key table column target rule = record {
  name = fk_name table column target;
  column = column;
  target = target;
  target_column = "id";
  on_delete = rule;
}

abbrev check : String → String → String → Check
check table name condition = record { name = ck_name table name; condition = condition }

abbrev index : String → List Key → Option Where → Index
index n ks w = record { name = n; keys = ks; unique = false; only = w }

-- `Conversation`
abbrev conversation_model : Table
conversation_model = record {
  name = "conversations";
  columns =
      uuid_pk
      ∷ mapped_option "title" text
      ∷ mapped "status" (
          enum_ conversation_value "conversation_status" (
            ConversationStatus.active ∷ ConversationStatus.cancelled ∷ ConversationStatus.archived
            ∷ []))
      ∷ timestamp_mixin;
  primary_key = (pk_name "conversations", "id");
  foreign_keys = [];
  checks = [];
  uniques = [];
  indexes = index "ix_conversations_updated_at" (asc "updated_at" ∷ []) none ∷ [];
}

-- `Message`
abbrev message_model : Table
message_model = record {
  name = "messages";
  columns =
      uuid_pk
      ∷ mapped "conversation_id" uuid
      ∷ mapped "role" (
          enum_ role_value "message_role"
            (MessageRole.user ∷ MessageRole.assistant ∷ MessageRole.system ∷ []))
      ∷ mapped "content" text
      ∷ mapped "seq" integer
      ∷ mapped_now "created_at"
      ∷ [];
  primary_key = (pk_name "messages", "id");
  foreign_keys = foreign_key "messages" "conversation_id" "conversations" cascade ∷ [];
  checks = [];
  uniques =
      record { name = "uq_messages_conversation_id_seq"; columns = "conversation_id" ∷ "seq" ∷ [] }
      ∷ [];
  indexes =
      index "ix_messages_conversation_id_seq" (asc "conversation_id" ∷ asc "seq" ∷ []) none ∷ [];
}

abbrev log_columns : List Column
log_columns =
    mapped "id" uuid
    ∷ mapped "schema_version" integer
    ∷ mapped_option "conversation_id" uuid
    ∷ mapped_option "message_id" uuid
    ∷ mapped "provider" (string 64)
    ∷ mapped "model" (string 128)
    ∷ mapped "status" (
        enum_ status_value "inference_status"
          (InferenceStatus.success ∷ InferenceStatus.error ∷ InferenceStatus.cancelled ∷ []))
    ∷ mapped "streamed" boolean
    ∷ mapped "started_at" timestamp
    ∷ mapped "completed_at" timestamp
    ∷ mapped_now "ingested_at"
    ∷ mapped_option "latency_ms" integer
    ∷ mapped_option "ttft_ms" integer
    ∷ mapped_option "input_tokens" integer
    ∷ mapped_option "output_tokens" integer
    ∷ mapped_option "input_preview" text
    ∷ mapped_option "output_preview" text
    ∷ mapped_option "error_type" (string 128)
    ∷ mapped_option "error_message" text
    ∷ mapped_option "finish_reason" (string 64)
    ∷ mapped_option "raw_metadata" jsonb
    ∷ []

-- `CheckConstraint(f"{column} IS NULL OR {column} >= 0", name=...)`
abbrev non_negative : String → String → Check
non_negative column name =
    check "inference_logs" name (column <> " IS NULL OR " <> column <> " >= 0")

-- `InferenceLog`
abbrev log_model : Table
log_model = record {
  name = "inference_logs";
  columns = log_columns;
  primary_key = (pk_name "inference_logs", "id");
  foreign_keys =
      foreign_key "inference_logs" "conversation_id" "conversations" set_null
      ∷ foreign_key "inference_logs" "message_id" "messages" set_null
      ∷ [];
  checks =
      non_negative "latency_ms" "latency_non_negative"
      ∷ non_negative "ttft_ms" "ttft_non_negative"
      ∷ non_negative "input_tokens" "input_tokens_non_negative"
      ∷ non_negative "output_tokens" "output_tokens_non_negative"
      ∷ check "inference_logs" "completed_after_started" "completed_at >= started_at"
      ∷ [];
  uniques = [];
  indexes =
      index "ix_inference_logs_started_at" (desc "started_at" ∷ []) none
      ∷ index "ix_inference_logs_provider_model_started_at"
          (asc "provider" ∷ asc "model" ∷ asc "started_at" ∷ []) none
      ∷ index "ix_inference_logs_errors" (asc "started_at" ∷ [])
          (some (equals "status" (status_value InferenceStatus.error)))
      ∷ index "ix_inference_logs_conversation_id" (asc "conversation_id" ∷ []) none
      ∷ [];
}

-- `RawEvent`
abbrev raw_event_model : Table
raw_event_model = record {
  name = "events_raw";
  columns =
      mapped "id" uuid
      ∷ mapped "event_type" (string 64)
      ∷ mapped "payload" jsonb
      ∷ mapped_now "received_at"
      ∷ mapped_option "processed_at" timestamp
      ∷ mapped "processing_status" (
          enum_ processing_value "processing_status"
            (ProcessingStatus.pending ∷ ProcessingStatus.processed ∷ ProcessingStatus.failed ∷ []))
      ∷ mapped_option "processing_error" text
      ∷ [];
  primary_key = (pk_name "events_raw", "id");
  foreign_keys = [];
  checks = [];
  uniques = [];
  indexes =
      index "ix_events_raw_unprocessed" (asc "received_at" ∷ [])
        (some (differs "processing_status" (processing_value ProcessingStatus.processed)))
      ∷ [];
}

-- `Base.metadata`: a table after those that reference it.
unfoldable pub metadata : List Table
metadata = log_model ∷ message_model ∷ raw_event_model ∷ conversation_model ∷ []
