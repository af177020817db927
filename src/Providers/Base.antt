-- ===== src/Providers/Base.antt =====
-- backend/app/providers/base.py. A stream of a call is what it yielded and how it ended; a call
-- that never ends by itself is seen up to the exception that interrupts it.
use llm_inference_logger.Prelude.{
  append-nil, append_assoc, ℕ, min, String, ◌≡◌, sym, ◌∙◌, Bool, Option, none, some, List, [], ◌∷◌,
  ◌++◌, map, Text, join, ℤ,
}
use llm_inference_logger.Domain.Enums.{MessageRole}
use llm_inference_logger.Domain.Json.{Dict, update}
use llm_inference_logger.Core.Errors.{Exn}
use llm_inference_logger.Prelude.Outcome.{Result, ok, err}

pub record ChatMessage : Type 0 where
  pub role : MessageRole
  pub content : Text

pub record TokenUsage : Type 0 where
  pub input_tokens : Option ℤ
  pub output_tokens : Option ℤ

pub record StreamChunk : Type 0 where
  pub delta_text : Text
  pub finish_reason : Option String
  pub usage : Option TokenUsage
  pub metadata : Dict

pub record ChatRequest : Type 0 where
  pub messages : List ChatMessage
  pub model : String
  pub max_output_tokens : ℕ
  pub system : Option Text

pub record CompletedResponse : Type 0 where
  pub text : Text
  pub usage : Option TokenUsage
  pub finish_reason : Option String
  pub metadata : Dict

-- How an asynchronous generator stops.
pub data Ending : Type 0 where
  finished : Ending
  raised : Exn → Ending

pub record ChunkStream : Type 0 where
  pub chunks : List StreamChunk
  pub ending : Ending

-- `BaseProvider`. `stream_chat` is what the vendor's side does for a request.
pub record Provider : Type 0 where
  pub name : String
  pub default_model : String
  pub supported_models : List String
  pub supports_model : String → Bool
  pub max_output_tokens_cap : Option ℕ
  pub is_configured : Bool
  pub stream_chat : ChatRequest → ChunkStream

-- `clamp_output_tokens`
unfoldable pub clamp_output_tokens : Provider → ℕ → ℕ
clamp_output_tokens p requested = elim p.max_output_tokens_cap [
  | none ↦ requested
  | some cap ↦ min requested cap
]

-- `x if x is not None else old`
abbrev pub latest {ℓ} : {A : Type ℓ} → Option A → Option A → Option A
latest none old = old
latest (some x) old = some x

-- One round of the loop of `complete`.
unfoldable pub absorb : CompletedResponse → StreamChunk → CompletedResponse
absorb r c = record {
  text = r.text ++ c.delta_text;
  usage = latest c.usage r.usage;
  finish_reason = latest c.finish_reason r.finish_reason;
  metadata = update r.metadata c.metadata;
}

unfoldable pub absorb_all : CompletedResponse → List StreamChunk → CompletedResponse
absorb_all r [] = r
absorb_all r (c ∷ cs) = absorb_all (absorb r c) cs

abbrev pub empty_response : CompletedResponse
empty_response = record { text = []; usage = none; finish_reason = none; metadata = [] }

-- `complete`, from the stream that `self.stream_chat(request)` gives.
unfoldable pub complete : ChunkStream → Result Exn CompletedResponse
unfolding absorb absorb_all
complete s = elim s.ending [ finished ↦ ok (absorb_all empty_response s.chunks) | raised e ↦ err e ]

abbrev pub deltas : List StreamChunk → List Text
deltas = map (λ c. c.delta_text)

text-absorb_all :
    (r : CompletedResponse) (cs : List StreamChunk)
    → (absorb_all r cs).text ≡ r.text ++ join (deltas cs)
unfolding absorb_all absorb
text-absorb_all r [] = sym (append-nil r.text)
text-absorb_all r (c ∷ cs) =
    text-absorb_all (absorb r c) cs ∙ append_assoc r.text c.delta_text (join (deltas cs))

-- Draining a stream that finished gives the concatenation of its texts.
pub text-complete :
    (s : ChunkStream)
    → s.ending ≡ finished
    → (r : CompletedResponse) × (complete s ≡ ok r) × (r.text ≡ join (deltas s.chunks))
unfolding complete
text-complete s h =
    (absorb_all empty_response s.chunks, rw h, text-absorb_all empty_response s.chunks)
