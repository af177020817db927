-- ===== src/App/Mock.antt =====
-- A plain turn of the whole program with the mock provider: the registry that the settings give, the
-- redactor and the limits of the settings, both units of work, and the wrapped call.
use llm_inference_logger.Prelude.{
  ℕ, ◌≤◌, ◌≡◌, refl, sym, ap, ◌∙◌, subst, inl, inr, Bool, true, false, Option, none, some, List, [],
  ◌∷◌, ◌++◌, map, arith, str_eq, Text, len, join, is_some, Bool-cases, All, All-append,
}
use llm_inference_logger.Providers.Candidates.{Outside, registry_of, candidates}
use llm_inference_logger.Providers.Base.{
  ChunkStream, StreamChunk, ChatRequest, deltas, Provider, finished,
}
use llm_inference_logger.Providers.Mock.{
  word_chunk, mock_words, mock_provider, final_chunk, mock_stream, endless_model, error_model,
}
use llm_inference_logger.Instrumentation.Wrapper.{Arrival, Call}
use llm_inference_logger.Domain.Event.{opt_nonneg, opt_at_most, InferenceEvent}
use llm_inference_logger.Instrumentation.Wrapper.Once.{FitsSchema, EndsAs, EndsWell}
use llm_inference_logger.Chat.Turn.{Surroundings, instrumented, ChatService}
use llm_inference_logger.Instrumentation.Redaction.{Redactor}
use llm_inference_logger.Providers.Mock.Laws.{mock_stream-Behaves}
use llm_inference_logger.Instrumentation.Redaction.Pattern.{Unicode}
use llm_inference_logger.Core.Config.{Settings}
use llm_inference_logger.Api.Chat.{ChatRequestBody, asked, ChatResponse, chat}
use llm_inference_logger.Providers.Registry.{
  resolve_model, get, from_settings, find_provider, model_for, found,
}
use llm_inference_logger.Db.Tables.{Db}
use llm_inference_logger.App.{chat_service}
use llm_inference_logger.Chat.Turn.Served.{CanOpen, Fresh}
use llm_inference_logger.Prelude.Outcome.{ok, Result}
use llm_inference_logger.Providers.Candidates.Laws.{registry_of-Serves}
use llm_inference_logger.Db.Conversations.Seq.{calm}
use llm_inference_logger.Api.Chat.Answers.{chat-Answers}
use llm_inference_logger.Core.Errors.{Exn}

-- What a call of an adapter meets when its stream is taken to its end: the clock that stamps it does
-- not go back, and no cancellation comes in its publish.
pub record Meets (stream : ChunkStream) (c : Call) : Type 0 where
  pub chunks : map (λ a. a.chunk) c.arrivals ≡ stream.chunks
  pub ending : c.ending ≡ stream.ending
  pub forward : c.started_at ≤ c.completed_at
  pub undisturbed : c.cancelled_in_publish ≡ false

-- A chunk that the schema has room for.
record Fits (c : StreamChunk) : Type 0 where
  input : opt_nonneg (elim c.usage [ none ↦ none | some u ↦ u.input_tokens ]) ≡ true
  output : opt_nonneg (elim c.usage [ none ↦ none | some u ↦ u.output_tokens ]) ≡ true
  reason : opt_at_most 64 c.finish_reason ≡ true

All-FitsSchema : (as_ : List Arrival) → All Fits (map (λ a. a.chunk) as_) → All FitsSchema as_
All-FitsSchema [] h = tt
All-FitsSchema (a ∷ as_) h =
    (record { input = h.0.input; output = h.0.output; reason = h.0.reason }, All-FitsSchema as_ h.1)

words-Fit : (ws : List Text) → All Fits (map word_chunk ws)
words-Fit [] = tt
words-Fit (w ∷ ws) = (record { input = refl; output = refl; reason = refl }, words-Fit ws)

-- The text of the mock's reply: every word with a space behind it.
abbrev pub reply_of : ChatRequest → Text
reply_of request = join (map (λ w. w ++ 32 ∷ []) (mock_words request))

words-text :
    (ws : List Text) (c : StreamChunk)
    → c.delta_text ≡ []
    → join (deltas (map word_chunk ws ++ c ∷ [])) ≡ join (map (λ w. w ++ 32 ∷ []) ws)
words-text [] c e = rw e refl
words-text (w ∷ ws) c e = ap (λ t. (w ++ 32 ∷ []) ++ t) (words-text ws c e)

module _ (o : Outside) (s : Surroundings) where
  abbrev mock : Provider
  mock = mock_provider o.digest o.taken o.interruption

  abbrev stream_of : ChatRequest → ChunkStream
  stream_of request = mock_stream o.digest o.taken o.interruption request

  ordinary :
      (request : ChatRequest)
      → request.model ≡ "mock"
      → ((stream_of request).chunks
          ≡ map word_chunk (mock_words request)
            ++ final_chunk o.digest o.taken o.interruption request ∷ [])
        × ((stream_of request).ending ≡ finished)
  ordinary request e =
      (mock_stream-Behaves o.digest o.taken o.interruption request).ordinary
        (subst (λ m. str_eq m endless_model ≡ false) (sym e) refl)
        (subst (λ m. str_eq m error_model ≡ false) (sym e) refl)

  mock-EndsAs :
      (redactor : Redactor) (i : ℕ) (streamed : Bool) (request : ChatRequest)
      → request.model ≡ "mock"
      → Meets (stream_of request) (s.call mock request)
      → EndsAs (instrumented redactor mock i streamed) request (s.call mock request) finished
  unfolding mock_provider
  mock-EndsAs redactor i streamed request e h =
      let (chunks, ending) = ordinary request e in
      record {
        publishable = record {
          named = (omega arith, omega arith);
          model = subst (λ m. (1 ≤ len m) × (len m ≤ 128)) (sym e) (omega arith, omega arith);
          forward = h.forward;
          ends_well = subst EndsWell (sym (h.ending ∙ ending)) tt;
          arrivals = All-FitsSchema (s.call mock request).arrivals (
              subst (All Fits) (sym (h.chunks ∙ chunks)) (
                All-append Fits (map word_chunk (mock_words request)) _
                  (words-Fit (mock_words request))
                  (record { input = refl; output = refl; reason = refl }, tt)));
        };
        ended = h.ending ∙ ending;
        undisturbed = h.undisturbed;
      }

module _ (o : Outside) (st : Settings) where
  -- The registry has the mock provider, whatever is configured.
  get-mock :
      get (registry_of o st) (some "mock") ≡ ok (mock_provider o.digest o.taken o.interruption)
  unfolding candidates mock_provider
  get-mock = (registry_of-Serves o st).1.0

  default-mock : st.default_provider ≡ "mock" → (registry_of o st).default ≡ "mock"
  unfolding registry_of from_settings
  default-mock e =
      elim (Bool-cases (is_some (find_provider st.default_provider (registry_of o st).providers))) [
        | inl known ↦ rw known e
        | inr other ↦ rw other refl
      ]

  resolve_model-mock :
      st.default_provider ≡ "mock"
      → resolve_model (registry_of o st) none none ≡ ok ("mock", "mock")
  unfolding resolve_model get mock_provider
  resolve_model-mock e =
      let r = registry_of o st in
      ap (λ n. model_for none (found r n (find_provider n r.providers))) (default-mock e)
      ∙ ap (model_for none) get-mock

-- A request that names neither a provider nor a model.
abbrev pub plain_body : Text → Option ℕ → ChatRequestBody
plain_body content conversation = record {
  content = content;
  conversation_id = conversation;
  provider = none;
  model = none;
}

abbrev pub service_of : Unicode → Outside → Settings → ChatService
service_of u o st = chat_service u st (registry_of o st)

ok-injective : (p q : Provider) (x : Result Exn Provider) → x ≡ ok p → x ≡ ok q → p ≡ q
ok-injective p q x e f = cc (e, f)

module _ {P : Type 0} (u : Unicode) (o : Outside) (st : Settings) (s : Surroundings)
    (content : Text) (conversation : Option ℕ) where
  -- With settings whose default is the mock provider, whichever vendors are configured, a plain turn
  -- that names neither a provider nor a model is answered by the mock provider, with every word of
  -- its reply to some request. This is on a connection that serves every statement, in a
  -- conversation that exists, or in none when the id that is drawn for one is free; where the
  -- messages of every conversation are numbered from 0 without a gap, and the two ids of messages
  -- that are drawn are free and differ; and where every call takes the mock provider's stream to its
  -- end, on a clock that does not go back and with no cancellation in the publish.
  pub mock-Answers :
      (db : Db P) (start : ℕ) (published : List InferenceEvent)
      → st.default_provider ≡ "mock"
      → CanOpen (service_of u o st) (asked (plain_body content conversation)) s conversation db
      → Fresh (service_of u o st) (asked (plain_body content conversation)) s db
      → ((request : ChatRequest)
          → Meets
              (mock_stream o.digest o.taken o.interruption request)
              (s.call (mock_provider o.digest o.taken o.interruption) request))
      → (r : ChatResponse) × (request : ChatRequest) × ((chat
            (service_of u o st)
            (plain_body content conversation)
            s
            (record { conn = calm db start; published = published })).0
          ≡ ok r)
        × (r.provider ≡ "mock")
        × (r.model ≡ "mock")
        × (r.user_message.content ≡ content)
        × (r.assistant_message.content ≡ reply_of request)
  mock-Answers db start published default opens fresh meets =
      let adapter = mock_provider o.digest o.taken o.interruption in
      let (r, ran, answer, named, model) =
        chat-Answers (service_of u o st) (plain_body content conversation) s "mock" "mock" adapter
          db start published (resolve_model-mock o st default) (get-mock o st) opens fresh
          (λ i history. mock-EndsAs o s (service_of u o st).redactor i false _ refl (meets _)) in
      let (p, request, held, for_model, (_, text)) = answer.reply_content in
      let same : p ≡ adapter =
        ok-injective p adapter (get (registry_of o st) (some r.provider)) held
          (ap (λ n. get (registry_of o st) (some n)) named ∙ get-mock o st) in
      let whole : r.assistant_message.content ≡ reply_of request =
        subst
          (λ q.
            r.assistant_message.content
            ≡ join (deltas (map (λ a. a.chunk) (s.call q request).arrivals)))
          same text
        ∙ ap (λ cs. join (deltas cs))
            ((meets request).chunks ∙ (ordinary o s request (for_model ∙ model)).0)
        ∙ words-text (mock_words request) (final_chunk o.digest o.taken o.interruption request)
            refl in
      (r, request, ran, named, model, answer.asked_content, whole)
