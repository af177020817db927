-- ===== src/Providers/Mock.antt =====
-- backend/app/providers/mock.py. How long it sleeps is not seen. What interrupts its endless stream
-- is a parameter: how many chunks were taken before, and the exception.
pub mod Laws
mod Tests
use llm_inference_logger.Prelude.{
  ℕ, zero, suc, ◌+◌, ◌-◌, ◌/◌, String, ◌<>◌, Bool, true, false, ◌&&◌, ◌||◌, none, some, List, [],
  ◌∷◌, ◌++◌, reverse, str_eq, Text, codes, ◌==◌, if◌then◌else◌, length, take, count, pos, decimal,
}
use llm_inference_logger.Domain.Enums.{MessageRole, is_user}
use llm_inference_logger.Domain.Json.{lit}
use llm_inference_logger.Core.Errors.{Exn, app, provider_error}
use llm_inference_logger.Db.Conversations.{is_space, strip}
use llm_inference_logger.Providers.Base.{
  Provider, ChatMessage, ChatRequest, StreamChunk, TokenUsage, ChunkStream, Ending, finished,
  raised,
}
use llm_inference_logger.Providers.Registry.{mock_name}

-- The names in `_DELAYS`.
abbrev pub mock_models : List String
mock_models = "mock" ∷ "mock-slow" ∷ "mock-error" ∷ "mock-instant" ∷ "mock-cancel" ∷ []

abbrev pub error_model : String
error_model = "mock-error"

abbrev pub endless_model : String
endless_model = "mock-cancel"

-- `model in _DELAYS`
abbrev pub among : String → List String → Bool
among m [] = false
among m (n ∷ ns) = str_eq m n || among m ns

-- `text.split()`: `cur` is the word that is being read.
abbrev pub emit : Text → List Text → List Text
emit [] ws = ws
emit (c ∷ w) ws = (c ∷ w) ∷ ws

unfoldable pub split_from : Text → Text → List Text
split_from cur [] = emit cur []
split_from cur (c ∷ t) = elim (is_space c) [
  | true ↦ emit cur (split_from [] t)
  | false ↦ split_from (cur ++ c ∷ []) t
]

unfoldable pub split : Text → List Text
split t = split_from [] t

abbrev pub no_topic : Text
no_topic = codes "nothing in particular"

-- `text or "nothing in particular"`
abbrev pub or_no_topic : Text → Text
or_no_topic [] = no_topic
or_no_topic (c ∷ t) = c ∷ t

abbrev pub last_topic : List ChatMessage → Text
last_topic [] = no_topic
last_topic (m ∷ ms) =
    let rest = last_topic ms in
    if is_user m.role then or_no_topic (take 80 (strip m.content)) else rest

-- `_topic`
unfoldable pub topic : ChatRequest → Text
topic request = last_topic (reverse request.messages)

-- `_TEMPLATE`, with its three fields filled in.
unfoldable pub template : Text → ℕ → ℕ → Text
template about turn prior =
    codes "You asked about "
    ++ (about
        ++ (codes ". This is turn "
            ++ (codes (decimal turn)
                ++ (codes " of the conversation, and I received "
                    ++ (codes (decimal prior)
                        ++ codes
                            " earlier message(s) as context. Here is a deterministic reply from the mock provider, which streams token by token so that latency, time-to-first-token and cancellation all behave exactly as they would against a real model. Nothing here reaches the network.")))))

unfoldable pub mock_words : ChatRequest → List Text
mock_words request = split (
    template (topic request) (count (λ m. is_user m.role) request.messages)
      (length request.messages - 1))

abbrev pub words_in : List ChatMessage → ℕ
words_in [] = 0
words_in (m ∷ ms) = length (split m.content) + words_in ms

abbrev pub word_chunk : Text → StreamChunk
word_chunk w = record {
  delta_text = w ++ 32 ∷ [];
  finish_reason = none;
  usage = none;
  metadata = [];
}

-- The loop over the words from an index on, for the model that fails at `third` or another; and
-- whether it has failed.
unfoldable pub word_loop : Bool → ℕ → ℕ → List Text → List StreamChunk × Bool
word_loop fails index third [] = ([], false)
word_loop fails index third (w ∷ ws) =
    let rest = word_loop fails (index + 1) third ws in
    if fails && (index == third) then ([], true) else (word_chunk w ∷ rest.0, rest.1)

-- `_stream_forever` up to the chunk before `counter + n`
unfoldable pub stream_forever : ℕ → ℕ → List StreamChunk
stream_forever counter zero = []
stream_forever counter (suc n) =
    record {
      delta_text = codes "still-streaming-" ++ (codes (decimal (counter + 1)) ++ 32 ∷ []);
      finish_reason = none;
      usage = none;
      metadata = [];
    }
    ∷ stream_forever (counter + 1) n

abbrev pub simulated_failure : Exn
simulated_failure =
    app (provider_error "Simulated upstream failure from the mock provider" mock_name true none)

-- `"|".join(m.content for m in request.messages)`
abbrev pub join_bars : List ChatMessage → Text
join_bars [] = []
join_bars (m ∷ []) = m.content
join_bars (m ∷ n ∷ ms) = m.content ++ 124 ∷ join_bars (n ∷ ms)

-- `digest` is the first sixteen digits of the SHA-256 of a text.
module _ (digest : Text → String) (taken : ℕ) (interruption : Exn) where
  -- `_request_id`
  abbrev pub request_id : ChatRequest → String
  request_id request = "mock_" <> digest (join_bars request.messages)

  abbrev pub final_chunk : ChatRequest → StreamChunk
  final_chunk request = record {
    delta_text = [];
    finish_reason = some "stop";
    usage = some (record {
      input_tokens = some (pos (words_in request.messages));
      output_tokens = some (pos (length (mock_words request)));
    });
    metadata = ("provider_request_id", lit (request_id request)) ∷ [];
  }

  abbrev pub after_words : ChatRequest → List StreamChunk × Bool → ChunkStream
  after_words request (chunks, true) = record { chunks = chunks; ending = raised simulated_failure }
  after_words request (chunks, false) = record {
    chunks = chunks ++ final_chunk request ∷ [];
    ending = finished;
  }

  -- `stream_chat`
  unfoldable pub mock_stream : ChatRequest → ChunkStream
  mock_stream request =
      if str_eq request.model endless_model
      then record { chunks = stream_forever 0 taken; ending = raised interruption }
      else after_words request (
          word_loop (str_eq request.model error_model) 0 (length (mock_words request) / 3)
            (mock_words request))

  -- `MockProvider`
  unfoldable pub mock_provider : Provider
  mock_provider = record {
    name = mock_name;
    default_model = "mock";
    supported_models = mock_models;
    supports_model = λ m. among m mock_models;
    max_output_tokens_cap = none;
    is_configured = true;
    stream_chat = mock_stream;
  }
