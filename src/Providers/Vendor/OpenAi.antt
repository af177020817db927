-- ===== src/Providers/Vendor/OpenAi.antt =====
-- backend/app/providers/openai_provider.py and openai_compatible.py.
pub mod Laws
use llm_inference_logger.Prelude.{
  ℕ, String, Bool, true, false, not, ◌||◌, Option, none, some, List, [], ◌∷◌, map, str_eq, Text,
  if◌then◌else◌, is_some, ℤ,
}
use llm_inference_logger.Domain.Enums.{MessageRole}
use llm_inference_logger.Domain.Json.{Dict, Json, lit, num}
use llm_inference_logger.Core.Errors.{Exn, app, provider_error}
use llm_inference_logger.Providers.Base.{
  Provider, ChatMessage, ChatRequest, StreamChunk, TokenUsage, ChunkStream, Ending, finished,
  raised,
}
use llm_inference_logger.Providers.Vendor.{
  ApiError, VendorStream, VendorEnd, VendorMessage, ending_of, chunks_of, text_or_empty, truthy,
  client_if,
}
use llm_inference_logger.Instrumentation.Wrapper.{is_empty}

-- The parts of the SDK's events that the adapter reads.
pub record CompletionUsage : Type 0 where
  pub prompt_tokens : ℤ
  pub completion_tokens : ℤ
  -- `completion_tokens_details`, and its `reasoning_tokens`
  pub completion_tokens_details : Option (Option ℤ)

pub record Choice : Type 0 where
  -- `delta.content`
  pub content : Option Text
  pub finish_reason : Option String

pub record CompletionEvent : Type 0 where
  pub id : String
  pub usage : Option CompletionUsage
  pub choices : List Choice

-- The arguments of `chat.completions.create`.
pub record CompletionRequest : Type 0 where
  pub model : String
  pub messages : List VendorMessage
  pub max_completion_tokens : ℕ
  pub include_usage : Bool

-- The SDK's client: what it answers to a request.
abbrev pub CompletionClient : Type 0
CompletionClient = CompletionRequest → VendorStream CompletionEvent

-- `_usage_metadata`
unfoldable pub usage_metadata : String → CompletionUsage → Dict
usage_metadata request_id usage =
    ("provider_request_id", lit request_id) ∷ elim usage.completion_tokens_details [
      | none ↦ []
      | some details ↦ elim details [ none ↦ [] | some n ↦ ("reasoning_tokens", num n) ∷ [] ]
    ]

abbrev pub token_usage : CompletionUsage → TokenUsage
token_usage u = record {
  input_tokens = some u.prompt_tokens;
  output_tokens = some u.completion_tokens;
}

-- What the first choice says, where there is one.
abbrev pub choice_text : List Choice → Text
choice_text [] = []
choice_text (c ∷ cs) = text_or_empty c.content

abbrev pub choice_reason : List Choice → Option String
choice_reason [] = none
choice_reason (c ∷ cs) = c.finish_reason

abbrev pub event_usage : CompletionEvent → Option TokenUsage
event_usage e = elim e.usage [ none ↦ none | some u ↦ some (token_usage u) ]

abbrev pub event_metadata : CompletionEvent → Dict
event_metadata e = elim e.usage [ none ↦ [] | some u ↦ usage_metadata e.id u ]

-- A round of the loop of `stream_chat`; an event with nothing at all has no chunk.
unfoldable pub completion_chunk : CompletionEvent → Option StreamChunk
completion_chunk e =
    if not (is_empty (choice_text e.choices))
      || is_some (event_usage e)
      || is_some (choice_reason e.choices)
    then some (record {
      delta_text = choice_text e.choices;
      finish_reason = choice_reason e.choices;
      usage = event_usage e;
      metadata = event_metadata e;
    })
    else none

abbrev pub openai_role : MessageRole → String
openai_role MessageRole.system = "system"
openai_role MessageRole.assistant = "assistant"
openai_role MessageRole.user = "user"

-- `_to_openai_messages`
unfoldable pub to_openai_messages : ChatRequest → List VendorMessage
to_openai_messages request =
    let turns =
      map (λ m. record { role = openai_role m.role; content = m.content }) request.messages in
    elim (truthy request.system) [
      | none ↦ turns
      | some s ↦ record { role = "system"; content = s } ∷ turns
    ]

-- `stream_chat`
unfoldable pub completion_stream :
    String → Bool → Option CompletionClient → ChatRequest → ChunkStream
completion_stream name with_usage none request = record {
  chunks = [];
  ending = raised (app (provider_error "OpenAI API key is not configured" name false none));
}
completion_stream name with_usage (some client) request =
    let reply = client (record {
      model = request.model;
      messages = to_openai_messages request;
      max_completion_tokens = request.max_output_tokens;
      include_usage = with_usage;
    }) in
    record { chunks = chunks_of completion_chunk reply.events; ending = ending_of name reply.stop }

-- `OpenAIProvider`, and the classes of openai_compatible.py, which differ in their name, their
-- client and their cap.
unfoldable pub openai_shaped : String → Option ℕ → Option CompletionClient → String → Provider
openai_shaped name cap client default_model = record {
  name = name;
  default_model = default_model;
  supported_models = default_model ∷ [];
  supports_model = λ model. true;
  max_output_tokens_cap = cap;
  is_configured = is_some client;
  stream_chat = completion_stream name true client;
}

-- `connect` makes the SDK's client of a key and an address; an empty key makes none.
module _ (connect : String → String → CompletionClient) where
  abbrev pub client_of : Option String → String → Option CompletionClient
  client_of key base_url = client_if (λ k. connect k base_url) key

  unfoldable pub groq : Option String → String → String → Option ℕ → Provider
  groq key base_url default_model cap =
      openai_shaped "groq" cap (client_of key base_url) default_model

  unfoldable pub gemini : Option String → String → String → Provider
  gemini key base_url default_model =
      openai_shaped "gemini" none (client_of key base_url) default_model

  -- The placeholder key is never empty.
  unfoldable pub ollama : String → String → Provider
  ollama base_url default_model =
      openai_shaped "ollama" none (client_of (some "ollama") base_url) default_model
