-- ===== src/Api/Logs.antt =====
-- backend/app/api/metrics.py: the two listings of log rows, and the cursor between the pages of one.
pub mod Pages
pub mod Tests
use llm_inference_logger.Prelude.{
  last, ℕ, String, Bool, Option, none, some, List, [], map, Text, ◌==◌, if◌then◌else◌, length, ℤ,
}
use llm_inference_logger.Domain.Json.{Dict}
use llm_inference_logger.Domain.Uuid.{print_uuid}
use llm_inference_logger.Domain.Enums.{InferenceStatus, status_value}
use llm_inference_logger.Db.Tables.{InferenceLog}
use llm_inference_logger.Db.InferenceLogs.{LogFilter, list_recent}

pub record RecentLogOut : Type 0 where
  pub id : Text
  pub provider : String
  pub model : String
  pub status : String
  pub started_at : ℕ
  pub latency_ms : Option ℤ
  pub ttft_ms : Option ℤ
  pub error_type : Option String
  pub error_message : Option String
  pub input_preview : Option Text
  pub output_preview : Option Text

unfoldable pub recent_log_out : InferenceLog → RecentLogOut
recent_log_out l = record {
  id = print_uuid l.id;
  provider = l.provider;
  model = l.model;
  status = status_value l.status;
  started_at = l.started_at;
  latency_ms = l.latency_ms;
  ttft_ms = l.ttft_ms;
  error_type = l.error_type;
  error_message = l.error_message;
  input_preview = l.input_preview;
  output_preview = l.output_preview;
}

abbrev pub any_log : LogFilter
any_log = record {
  provider = none;
  model = none;
  status = none;
  conversation_id = none;
  since = none;
}

-- `recent_errors`
unfoldable pub recent_errors : ℕ → List InferenceLog → List RecentLogOut
recent_errors limit logs =
    map recent_log_out
      (list_recent limit (record any_log { status = some InferenceStatus.error }) none none logs)

pub record LogRowOut : Type 0 where
  pub id : Text
  pub conversation_id : Option Text
  pub message_id : Option Text
  pub provider : String
  pub model : String
  pub status : String
  pub streamed : Bool
  pub started_at : ℕ
  pub completed_at : ℕ
  pub ingested_at : ℕ
  pub latency_ms : Option ℤ
  pub ttft_ms : Option ℤ
  pub input_tokens : Option ℤ
  pub output_tokens : Option ℤ
  pub finish_reason : Option String
  pub error_type : Option String
  pub error_message : Option String
  pub input_preview : Option Text
  pub output_preview : Option Text
  pub raw_metadata : Dict

-- `str(i) if i else None`; a UUID is never false.
abbrev pub id_text : Option ℕ → Option Text
id_text none = none
id_text (some i) = some (print_uuid i)

-- `metadata or {}`
abbrev pub dict_or_empty : Option Dict → Dict
dict_or_empty none = []
dict_or_empty (some d) = d

unfoldable pub log_row_out : InferenceLog → LogRowOut
log_row_out l = record {
  id = print_uuid l.id;
  conversation_id = id_text l.conversation_id;
  message_id = id_text l.message_id;
  provider = l.provider;
  model = l.model;
  status = status_value l.status;
  streamed = l.streamed;
  started_at = l.started_at;
  completed_at = l.completed_at;
  ingested_at = l.ingested_at;
  latency_ms = l.latency_ms;
  ttft_ms = l.ttft_ms;
  input_tokens = l.input_tokens;
  output_tokens = l.output_tokens;
  finish_reason = l.finish_reason;
  error_type = l.error_type;
  error_message = l.error_message;
  input_preview = l.input_preview;
  output_preview = l.output_preview;
  raw_metadata = dict_or_empty l.raw_metadata;
}

pub record LogPage : Type 0 where
  pub items : List LogRowOut
  pub next_before : Option ℕ
  pub next_before_id : Option Text

-- The row after which the next page starts; a page that is not full has none.
abbrev pub end_row : ℕ → List InferenceLog → Option InferenceLog
end_row limit rows = if length rows == limit then last rows else none

unfoldable pub page_with : Option InferenceLog → List InferenceLog → LogPage
unfolding log_row_out
page_with end rows = record {
  items = map log_row_out rows;
  next_before = elim end [ none ↦ none | some l ↦ some l.started_at ];
  next_before_id = elim end [ none ↦ none | some l ↦ some (print_uuid l.id) ];
}

-- The page of some rows.
abbrev pub page_of : ℕ → List InferenceLog → LogPage
page_of limit rows = page_with (end_row limit rows) rows

-- The filters that the endpoint takes.
abbrev pub page_filter : Option String → Option InferenceStatus → LogFilter
page_filter provider status = record any_log { provider = provider; status = status }

-- `recent_logs`
unfoldable pub recent_logs :
    ℕ → Option String → Option InferenceStatus → Option ℕ → Option ℕ → List InferenceLog → LogPage
recent_logs limit provider status before before_id logs =
    page_of limit (list_recent limit (page_filter provider status) before before_id logs)
