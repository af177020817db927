-- ===== src/Api/Logs/Tests.antt =====
-- Three calls read in pages of one row.
use llm_inference_logger.Prelude.{
  ℕ, ◌+◌, String, ◌≡◌, refl, true, none, some, List, [], ◌∷◌, map, arith, keep, pos,
}
use llm_inference_logger.Domain.Enums.{InferenceStatus}
use llm_inference_logger.Domain.Uuid.{parse_uuid}
use llm_inference_logger.Domain.Uuid.RoundTrip.{parse_uuid-print_uuid}
use llm_inference_logger.Prelude.Order.{order_by, insert_sorted}
use llm_inference_logger.Db.Tables.{InferenceLog, find_log}
use llm_inference_logger.Db.InferenceLogs.{newer, matches, list_recent}
use llm_inference_logger.Api.Logs.{log_row_out, page_filter, recent_errors, recent_log_out}
use llm_inference_logger.Api.Logs.Pages.{read_pages, read_pages_complete}

abbrev call : ℕ → String → ℕ → InferenceStatus → InferenceLog
call i provider t status = record {
  id = i;
  schema_version = pos 1;
  conversation_id = none;
  message_id = none;
  provider = provider;
  model = "m";
  status = status;
  streamed = true;
  started_at = t;
  completed_at = t + 3;
  ingested_at = 100;
  latency_ms = some (pos 3);
  ttft_ms = none;
  input_tokens = none;
  output_tokens = some (pos 5);
  input_preview = none;
  output_preview = none;
  error_type = none;
  error_message = none;
  finish_reason = none;
  raw_metadata = none;
}

abbrev pub calls : List InferenceLog
calls =
    call 4 "mock" 20 InferenceStatus.success
    ∷ call 6 "mock" 30 InferenceStatus.error
    ∷ call 5 "openai" 25 InferenceStatus.error
    ∷ call 7 "mock" 20 InferenceStatus.success
    ∷ []

newest_errors : map (λ l. l.started_at) (recent_errors 5 calls) ≡ 30 ∷ 25 ∷ []
unfolding recent_errors recent_log_out list_recent order_by insert_sorted
newest_errors = refl

read_pages_complete_example :
    read_pages parse_uuid 5 1 (some "mock") none calls none none
    ≡ map log_row_out (order_by newer (keep (matches (page_filter (some "mock") none)) calls))
unfolding find_log
read_pages_complete_example =
    read_pages_complete parse_uuid parse_uuid-print_uuid 5 1 (some "mock") none calls (omega arith)
      (refl, (refl, (refl, (refl, tt))))
      (omega arith, (omega arith, (omega arith, (omega arith, tt)))) (omega arith)
