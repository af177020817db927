-- ===== src/Providers/Vendor/Tests.antt =====
-- Replies in both formats, and the theorems on them.
use llm_inference_logger.Prelude.{
  ◌≡◌, refl, true, not, none, some, [], ◌∷◌, ◌++◌, map, codes, length, keep, pos,
}
use llm_inference_logger.Domain.Enums.{MessageRole}
use llm_inference_logger.Providers.Base.{ChatRequest}
use llm_inference_logger.Providers.Vendor.{VendorStream, ending_of, chunks_of, api_error, truthy}
use llm_inference_logger.Providers.Vendor.OpenAi.{
  CompletionEvent, CompletionUsage, completion_chunk, completion_stream,
}
use llm_inference_logger.Providers.Vendor.OpenAi.Laws.{CarriesAll, completion_stream-CarriesAll}
use llm_inference_logger.Providers.Vendor.Anthropic.{
  split_system, split_turns, system_part, join_paragraphs,
}
use llm_inference_logger.Providers.Vendor.Anthropic.Laws.{
  split_system_hoists, is_system, turn_of, contents,
}

abbrev usage : CompletionUsage
usage = record {
  prompt_tokens = pos 3;
  completion_tokens = pos 5;
  completion_tokens_details = some (some (pos 4));
}

-- Usage and text on one event, an event with nothing, and a failure at the end.
abbrev reply : VendorStream CompletionEvent
reply = record {
  events =
      record {
        id = "r";
        usage = some usage;
        choices = record { content = some (codes "hi"); finish_reason = none } ∷ [];
      }
      ∷ record { id = "r"; usage = none; choices = [] }
      ∷ record {
        id = "r";
        usage = none;
        choices = record { content = none; finish_reason = some "stop" } ∷ [];
      }
      ∷ [];
  stop =
      api_error (record { class_name = "RateLimitError"; text = "slow down"; is_transient = true });
}

two_chunks : length (chunks_of completion_chunk reply.events) ≡ 2
unfolding completion_chunk
two_chunks = refl

abbrev request : ChatRequest
request = record {
  messages =
      record { role = MessageRole.user; content = codes "a" }
      ∷ record { role = MessageRole.system; content = codes "b" }
      ∷ record { role = MessageRole.assistant; content = codes "c" }
      ∷ [];
  model = "m";
  max_output_tokens = 9;
  system = some (codes "s");
}

completion_stream-CarriesAll_example :
    CarriesAll reply.events (completion_stream "groq" true (some (λ r. reply)) request).chunks
    × ((completion_stream "groq" true (some (λ r. reply)) request).ending
        ≡ ending_of "groq" reply.stop)
completion_stream-CarriesAll_example = completion_stream-CarriesAll "groq" true (λ r. reply) request

hoisted : (split_system request).0 ≡ some (codes "s\n\nb")
unfolding split_system split_turns
hoisted = refl

split_system_hoists_example : split_system request ≡ (
  truthy (
      some (
        join_paragraphs
          (system_part (truthy request.system) ++ contents (keep is_system request.messages)))),
  map turn_of (keep (λ m. not (is_system m)) request.messages),
)
split_system_hoists_example = split_system_hoists request
