-- ===== src/Db/Migrations/Initial.antt =====
-- backend/app/db/migrations/versions/20260817_0627_initial_schema.py
use llm_inference_logger.Prelude.{String, true, false, none, some, List, [], ◌∷◌}
use llm_inference_logger.Db.Migrations.{
  ColumnType, Key, Column, Table, Statement, Index, create_table, Where, timestamp, drop_index,
  uuid, create_index, string, enum_text, drop_table, integer, text, jsonb, cascade, asc, boolean,
  set_null, differs, equals, desc,
}

abbrev pub required : String → ColumnType → Column
required n k = record { name = n; kind = k; nullable = false; server_default = none }

abbrev pub optional : String → ColumnType → Column
optional n k = record { name = n; kind = k; nullable = true; server_default = none }

-- `sa.DateTime(timezone=True), server_default=sa.text("now()"), nullable=False`
abbrev stamped : String → Column
stamped n = record { name = n; kind = timestamp; nullable = false; server_default = some "now()" }

abbrev plain_index : String → List Key → Index
plain_index n ks = record { name = n; keys = ks; unique = false; only = none }

abbrev partial_index : String → List Key → Where → Index
partial_index n ks w = record { name = n; keys = ks; unique = false; only = some w }

abbrev conversations_table : Table
conversations_table = record {
  name = "conversations";
  columns =
      required "id" uuid
      ∷ optional "title" text
      ∷ required "status"
          (enum_text "conversation_status" ("active" ∷ "cancelled" ∷ "archived" ∷ []))
      ∷ stamped "created_at"
      ∷ stamped "updated_at"
      ∷ [];
  primary_key = ("pk_conversations", "id");
  foreign_keys = [];
  checks = [];
  uniques = [];
  indexes = [];
}

abbrev events_raw_table : Table
events_raw_table = record {
  name = "events_raw";
  columns =
      required "id" uuid
      ∷ required "event_type" (string 64)
      ∷ required "payload" jsonb
      ∷ stamped "received_at"
      ∷ optional "processed_at" timestamp
      ∷ required "processing_status"
          (enum_text "processing_status" ("pending" ∷ "processed" ∷ "failed" ∷ []))
      ∷ optional "processing_error" text
      ∷ [];
  primary_key = ("pk_events_raw", "id");
  foreign_keys = [];
  checks = [];
  uniques = [];
  indexes = [];
}

abbrev messages_table : Table
messages_table = record {
  name = "messages";
  columns =
      required "id" uuid
      ∷ required "conversation_id" uuid
      ∷ required "role" (enum_text "message_role" ("user" ∷ "assistant" ∷ "system" ∷ []))
      ∷ required "content" text
      ∷ required "seq" integer
      ∷ stamped "created_at"
      ∷ [];
  primary_key = ("pk_messages", "id");
  foreign_keys =
      record {
        name = "fk_messages_conversation_id_conversations";
        column = "conversation_id";
        target = "conversations";
        target_column = "id";
        on_delete = cascade;
      }
      ∷ [];
  checks = [];
  uniques =
      record { name = "uq_messages_conversation_id_seq"; columns = "conversation_id" ∷ "seq" ∷ [] }
      ∷ [];
  indexes = [];
}

abbrev inference_logs_table : Table
inference_logs_table = record {
  name = "inference_logs";
  columns =
      required "id" uuid
      ∷ required "schema_version" integer
      ∷ optional "conversation_id" uuid
      ∷ optional "message_id" uuid
      ∷ required "provider" (string 64)
      ∷ required "model" (string 128)
      ∷ required "status" (enum_text "inference_status" ("success" ∷ "error" ∷ "cancelled" ∷ []))
      ∷ required "streamed" boolean
      ∷ required "started_at" timestamp
      ∷ required "completed_at" timestamp
      ∷ stamped "ingested_at"
      ∷ optional "latency_ms" integer
      ∷ optional "ttft_ms" integer
      ∷ optional "input_tokens" integer
      ∷ optional "output_tokens" integer
      ∷ optional "input_preview" text
      ∷ optional "output_preview" text
      ∷ optional "error_type" (string 128)
      ∷ optional "error_message" text
      ∷ optional "finish_reason" (string 64)
      ∷ optional "raw_metadata" jsonb
      ∷ [];
  primary_key = ("pk_inference_logs", "id");
  foreign_keys =
      record {
        name = "fk_inference_logs_conversation_id_conversations";
        column = "conversation_id";
        target = "conversations";
        target_column = "id";
        on_delete = set_null;
      }
      ∷ record {
        name = "fk_inference_logs_message_id_messages";
        column = "message_id";
        target = "messages";
        target_column = "id";
        on_delete = set_null;
      }
      ∷ [];
  checks =
      record {
        name = "ck_inference_logs_completed_after_started";
        condition = "completed_at >= started_at";
      }
      ∷ record {
        name = "ck_inference_logs_input_tokens_non_negative";
        condition = "input_tokens IS NULL OR input_tokens >= 0";
      }
      ∷ record {
        name = "ck_inference_logs_latency_non_negative";
        condition = "latency_ms IS NULL OR latency_ms >= 0";
      }
      ∷ record {
        name = "ck_inference_logs_output_tokens_non_negative";
        condition = "output_tokens IS NULL OR output_tokens >= 0";
      }
      ∷ record {
        name = "ck_inference_logs_ttft_non_negative";
        condition = "ttft_ms IS NULL OR ttft_ms >= 0";
      }
      ∷ [];
  uniques = [];
  indexes = [];
}

unfoldable pub upgrade : List Statement
upgrade =
    create_table conversations_table
    ∷ create_index "conversations"
        (plain_index "ix_conversations_updated_at" (asc "updated_at" ∷ []))
    ∷ create_table events_raw_table
    ∷ create_index "events_raw" (
        partial_index "ix_events_raw_unprocessed" (asc "received_at" ∷ [])
          (differs "processing_status" "processed"))
    ∷ create_table messages_table
    ∷ create_index "messages"
        (plain_index "ix_messages_conversation_id_seq" (asc "conversation_id" ∷ asc "seq" ∷ []))
    ∷ create_table inference_logs_table
    ∷ create_index "inference_logs"
        (plain_index "ix_inference_logs_conversation_id" (asc "conversation_id" ∷ []))
    ∷ create_index "inference_logs"
        (partial_index "ix_inference_logs_errors" (asc "started_at" ∷ []) (equals "status" "error"))
    ∷ create_index "inference_logs" (
        plain_index "ix_inference_logs_provider_model_started_at"
          (asc "provider" ∷ asc "model" ∷ asc "started_at" ∷ []))
    ∷ create_index "inference_logs"
        (plain_index "ix_inference_logs_started_at" (desc "started_at" ∷ []))
    ∷ []

unfoldable pub downgrade : List Statement
downgrade =
    drop_index "ix_inference_logs_started_at"
    ∷ drop_index "ix_inference_logs_provider_model_started_at"
    ∷ drop_index "ix_inference_logs_errors"
    ∷ drop_index "ix_inference_logs_conversation_id"
    ∷ drop_table "inference_logs"
    ∷ drop_index "ix_messages_conversation_id_seq"
    ∷ drop_table "messages"
    ∷ drop_index "ix_events_raw_unprocessed"
    ∷ drop_table "events_raw"
    ∷ drop_index "ix_conversations_updated_at"
    ∷ drop_table "conversations"
    ∷ []
