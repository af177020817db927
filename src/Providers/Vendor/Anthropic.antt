-- ===== src/Providers/Vendor/Anthropic.antt =====
-- backend/app/providers/anthropic_provider.py
pub mod Laws
use llm_inference_logger.Prelude.{
  ℕ, String, true, false, not, Option, none, some, List, [], ◌∷◌, ◌++◌, Text, is_some, ℤ,
}
use llm_inference_logger.Domain.Enums.{MessageRole}
use llm_inference_logger.Domain.Json.{lit}
use llm_inference_logger.Core.Errors.{Exn, app, provider_error}
use llm_inference_logger.Providers.Base.{
  Provider, ChatMessage, ChatRequest, StreamChunk, TokenUsage, ChunkStream, Ending, finished,
  raised,
}
use llm_inference_logger.Providers.Vendor.{
  ApiError, VendorStream, VendorEnd, VendorMessage, ending_of, chunks_of, truthy,
}

-- The SDK's events, by what `_to_chunk` reads of them.
pub data MessageEvent : Type 0 where
  -- `content_block_delta` with a `text_delta`
  text_delta : Text → MessageEvent
  -- the id and the input tokens
  message_start : String → ℤ → MessageEvent
  -- the stop reason and the output tokens
  message_delta : Option String → ℤ → MessageEvent
  other_event : MessageEvent

-- `_to_chunk`
unfoldable pub message_chunk : MessageEvent → Option StreamChunk
message_chunk (text_delta t) =
    some (record { delta_text = t; finish_reason = none; usage = none; metadata = [] })
message_chunk (message_start id n) = some (record {
  delta_text = [];
  finish_reason = none;
  usage = some (record { input_tokens = some n; output_tokens = none });
  metadata = ("provider_request_id", lit id) ∷ [];
})
message_chunk (message_delta reason n) = some (record {
  delta_text = [];
  finish_reason = reason;
  usage = some (record { input_tokens = none; output_tokens = some n });
  metadata = [];
})
message_chunk other_event = none

-- `"\n\n".join(parts)`
abbrev pub join_paragraphs : List Text → Text
join_paragraphs [] = []
join_paragraphs (p ∷ []) = p
join_paragraphs (p ∷ q ∷ ps) = p ++ 10 ∷ 10 ∷ join_paragraphs (q ∷ ps)

-- The loop of `_split_system`: the system parts and the turns so far.
unfoldable pub split_turns :
    List Text → List VendorMessage → List ChatMessage → List Text × List VendorMessage
split_turns parts turns [] = (parts, turns)
split_turns parts turns (m ∷ ms) = elim m.role [
  | MessageRole.system ↦ split_turns (parts ++ m.content ∷ []) turns ms
  | MessageRole.assistant ↦
      split_turns parts (turns ++ record { role = "assistant"; content = m.content } ∷ []) ms
  | MessageRole.user ↦
      split_turns parts (turns ++ record { role = "user"; content = m.content } ∷ []) ms
]

-- `[request.system] if request.system else []`
abbrev pub system_part : Option Text → List Text
system_part none = []
system_part (some s) = s ∷ []

-- `_split_system`
unfoldable pub split_system : ChatRequest → Option Text × List VendorMessage
split_system request =
    let (parts, turns) = split_turns (system_part (truthy request.system)) [] request.messages in
    (truthy (some (join_paragraphs parts)), turns)

-- The arguments of `messages.stream`; a system prompt that is none is omitted.
pub record MessagesRequest : Type 0 where
  pub model : String
  pub max_tokens : ℕ
  pub system : Option Text
  pub messages : List VendorMessage

abbrev pub MessagesClient : Type 0
MessagesClient = MessagesRequest → VendorStream MessageEvent

-- `stream_chat`
unfoldable pub messages_stream : Option MessagesClient → ChatRequest → ChunkStream
messages_stream none request = record {
  chunks = [];
  ending =
      raised (app (provider_error "Anthropic API key is not configured" "anthropic" false none));
}
messages_stream (some client) request =
    let (system, messages) = split_system request in
    let reply = client (record {
      model = request.model;
      max_tokens = request.max_output_tokens;
      system = system;
      messages = messages;
    }) in
    record {
      chunks = chunks_of message_chunk reply.events;
      ending = ending_of "anthropic" reply.stop;
    }

-- `AnthropicProvider`
unfoldable pub anthropic : Option MessagesClient → String → Provider
anthropic client default_model = record {
  name = "anthropic";
  default_model = default_model;
  supported_models = default_model ∷ [];
  supports_model = λ model. true;
  max_output_tokens_cap = none;
  is_configured = is_some client;
  stream_chat = messages_stream client;
}
