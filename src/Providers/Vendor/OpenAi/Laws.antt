-- ===== src/Providers/Vendor/OpenAi/Laws.antt =====
-- The adapter drops nothing that an event carries.
use llm_inference_logger.Prelude.{
  String, ◌≡◌, refl, ap, ◌∙◌, Bool, not, ◌||◌, Option, none, some, List, [], ◌∷◌, ◌++◌, map, Text,
  join, if◌then◌else◌, is_some,
}
use llm_inference_logger.Domain.Json.{Dict}
use llm_inference_logger.Providers.Base.{StreamChunk, TokenUsage, deltas, ChatRequest}
use llm_inference_logger.Providers.Vendor.{chunks_of, ending_of}
use llm_inference_logger.Providers.Vendor.OpenAi.{
  CompletionEvent, CompletionClient, completion_chunk, choice_text, choice_reason, event_usage,
  completion_stream, to_openai_messages, event_metadata,
}
use llm_inference_logger.Instrumentation.Wrapper.{is_empty}

-- The values that are there.
abbrev pub somes : {A : Type 0} → List (Option A) → List A
somes [] = []
somes (o ∷ os) = let rest = somes os in elim o [ none ↦ rest | some a ↦ a ∷ rest ]

-- What the events of a stream carry, and what its chunks do.
pub record CarriesAll (es : List CompletionEvent) (cs : List StreamChunk) : Type 0 where
  pub text : join (deltas cs) ≡ join (map (λ e. choice_text e.choices) es)
  pub usage : somes (map (λ c. c.usage) cs) ≡ somes (map event_usage es)
  pub reason : somes (map (λ c. c.finish_reason) cs) ≡ somes (map (λ e. choice_reason e.choices) es)

-- A chunk, where an event has anything, in front of others.
abbrev in_front :
    Text → Option TokenUsage → Option String → Dict → List StreamChunk → List StreamChunk
in_front t u r d cs =
    let made : Option StreamChunk =
      if not (is_empty t) || is_some u || is_some r
      then some (record { delta_text = t; finish_reason = r; usage = u; metadata = d })
      else none in
    elim made [ none ↦ cs | some c ↦ c ∷ cs ]

Carried : Text → Option TokenUsage → Option String → List StreamChunk → List StreamChunk → Type 0
Carried t u r cs' cs =
    (join (deltas cs') ≡ t ++ join (deltas cs))
    × (somes (map (λ c. c.usage) cs') ≡ somes (u ∷ map (λ c. c.usage) cs))
    × (somes (map (λ c. c.finish_reason) cs') ≡ somes (r ∷ map (λ c. c.finish_reason) cs))

in_front-Carried :
    (t : Text) (u : Option TokenUsage) (r : Option String) (d : Dict) (cs : List StreamChunk)
    → Carried t u r (in_front t u r d cs) cs
unfolding Carried
in_front-Carried [] none none d cs = (refl, refl, refl)
in_front-Carried [] none (some r) d cs = (refl, refl, refl)
in_front-Carried [] (some u) r d cs = (refl, refl, refl)
in_front-Carried (c ∷ t) u r d cs = (refl, refl, refl)

chunks-CarriesAll : (es : List CompletionEvent) → CarriesAll es (chunks_of completion_chunk es)
unfolding completion_chunk Carried
chunks-CarriesAll [] = record { text = refl; usage = refl; reason = refl }
chunks-CarriesAll (e ∷ es) =
    let rest = chunks-CarriesAll es in
    let one =
      in_front-Carried (choice_text e.choices) (event_usage e) (choice_reason e.choices)
        (event_metadata e) (chunks_of completion_chunk es) in
    record {
      text = one.0 ∙ ap (λ z. choice_text e.choices ++ z) rest.text;
      usage = one.1 ∙ ap (λ z. elim (event_usage e) [ none ↦ z | some a ↦ a ∷ z ]) rest.usage;
      reason =
          one.2
          ∙ ap (λ z. elim (choice_reason e.choices) [ none ↦ z | some a ↦ a ∷ z ]) rest.reason;
    }

-- Of a reply in the OpenAI format, the stream of chunks carries the whole text, every usage and
-- every reason to finish, in their order, whichever of them share an event and however the reply
-- ends; it ends without an error where the reply does, and an error of the vendor's becomes one of
-- this program's under the provider's name.
pub completion_stream-CarriesAll :
    (name : String) (with_usage : Bool) (client : CompletionClient) (request : ChatRequest)
    → let reply = client (record {
      model = request.model;
      messages = to_openai_messages request;
      max_completion_tokens = request.max_output_tokens;
      include_usage = with_usage;
    }) in
      let s = completion_stream name with_usage (some client) request in
      CarriesAll reply.events s.chunks × (s.ending ≡ ending_of name reply.stop)
unfolding completion_stream
completion_stream-CarriesAll name with_usage client request = (
  chunks-CarriesAll
      (client (record {
        model = request.model;
        messages = to_openai_messages request;
        max_completion_tokens = request.max_output_tokens;
        include_usage = with_usage;
      })).events,
  refl,
)
