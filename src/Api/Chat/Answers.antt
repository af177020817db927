-- ===== src/Api/Chat/Answers.antt =====
-- A plain turn for which nothing fails is answered.
use llm_inference_logger.Prelude.{ℕ, String, ◌≡◌, refl, sym, ◌∙◌, subst, false, some, List, ap}
use llm_inference_logger.Db.Session.{Conn, Sql}
use llm_inference_logger.Chat.Turn.{
  Turn, instrumented, record_user_turn, ChatService, complete_logged, Surroundings, Site, on_conn,
  send, resolved, traced, request_of, record_assistant_turn, ChatResult,
}
use llm_inference_logger.Providers.Base.{
  Provider, ChatRequest, finished, text-complete, CompletedResponse,
}
use llm_inference_logger.Api.Chat.{ChatRequestBody, chat, asked, ChatResponse, response_of}
use llm_inference_logger.Instrumentation.Wrapper.Once.{EndsAs, stream_chat-ending}
use llm_inference_logger.Prelude.Outcome.Runs.{Runs, bind-Runs}
use llm_inference_logger.Db.Tables.{Conversation, Db, Message}
use llm_inference_logger.Domain.Event.{InferenceEvent}
use llm_inference_logger.Db.Conversations.Seq.{calm}
use llm_inference_logger.Providers.Registry.{resolve_model, get}
use llm_inference_logger.Db.Conversations.Served.{Ready, Settles}
use llm_inference_logger.Prelude.Outcome.{ok, ◌>>=◌, pure}
use llm_inference_logger.Chat.Turn.Served.{
  Asked, CanOpen, Fresh, record_user_turn-Served, record_assistant_turn-Served, resolved-is,
}
use llm_inference_logger.Prelude.Outcome.Returns.{Returns-ok}
use llm_inference_logger.Api.Chat.Reply.{IsAnswer, chat-IsAnswer}

module _ {P : Type 0} where
  on_conn-Runs :
      {A : Type 0} (R : A → Conn P → Type 0) (m : Sql P A) (site : Site P)
      → Runs m site.conn R
      → Runs (on_conn m) site (λ a after. R a after.conn)
  on_conn-Runs R m site (a, e, h) = (a, e, h)

-- A call that goes to its end is drained.
complete_logged-Runs :
    {P : Type 0} (service : ChatService) (s : Surroundings) (p : Provider) (i : ℕ)
    (request : ChatRequest) (site : Site P)
    → (traced service s p i false request).ending ≡ finished
    → Runs
        (complete_logged (traced service s p i false request))
        site
        (λ _ after. after.conn ≡ site.conn)
unfolding complete_logged
complete_logged-Runs service s p i request site h =
    let t = traced service s p i false request in
    let (r, e, _) = text-complete (record { chunks = t.yielded; ending = t.ending }) h in
    (r, e, refl)

module _ {P : Type 0} (service : ChatService) (body : ChatRequestBody) (s : Surroundings)
    (provider model : String) (adapter : Provider) where
  -- The names of a result are those that were resolved.
  abbrev HasNames : ChatResult → Site P → Type 0
  HasNames result _ = (result.provider ≡ provider) × (result.model ≡ model)

  abbrev AnswerNames : ChatResponse → Site P → Type 0
  AnswerNames r _ = (r.provider ≡ provider) × (r.model ≡ model)

  replies :
      (turn : Conversation × Message × List Message) (site : Site P) (db : Db P) (now : ℕ)
      → ((i : ℕ) (history : List Message)
          → (traced service s adapter i false
              (request_of service.settings adapter model history)).ending
            ≡ finished)
      → site.conn ≡ calm db now
      → Ready turn.0.id s.assistant_id db
      → Runs
          (complete_logged (
              traced service s adapter turn.0.id false
                (request_of service.settings adapter model turn.2))
            >>= λ response.
                on_conn (record_assistant_turn service (asked body) s turn.0.id response.text)
                >>= λ reply. pure (record {
                  conversation = turn.0;
                  user_message = turn.1;
                  assistant_message = reply;
                  provider = provider;
                  model = model;
                }))
          site
          HasNames
  replies turn site db now ends e ready =
      bind-Runs (λ (_ : CompletedResponse) after. after.conn ≡ site.conn) HasNames
        (complete_logged _) _ site
        (complete_logged-Runs service s adapter turn.0.id _ site (ends turn.0.id turn.2))
        (λ response after same.
          bind-Runs (λ (_ : Message) _. Unit {0}) HasNames
            (on_conn (record_assistant_turn service (asked body) s turn.0.id response.text)) _ after
            (let (m, r) =
                record_assistant_turn-Served service (asked body) s turn.0.id response.text db now
                  ready.numbered ready.known ready.unused in
              (
                m,
                subst
                    (λ c.
                      (record_assistant_turn service (asked body) s turn.0.id response.text c).0
                      ≡ ok m)
                    (sym (same ∙ e)) r,
                tt {0},
              ))
            (λ reply last _. (_, refl, (refl, refl))))

  resolved-Runs :
      (site : Site P)
      → resolve_model service.registry body.provider body.model ≡ ok (provider, model)
      → get service.registry (some provider) ≡ ok adapter
      → Runs
          (resolved service (asked body))
          site
          (λ x after. (x ≡ (provider, adapter, model)) × (after ≡ site))
  resolved-Runs site named found =
      let whole = resolved-is service (asked body) s provider model adapter site named found in
      ((provider, adapter, model), ap (λ x. x.0) whole, (refl, ap (λ x. x.1) whole))

  -- The turn once its names are resolved.
  abbrev from_names : String × Provider × String → Turn P ChatResult
  from_names (name, p, m) = do
    (conversation, message, history) ← on_conn (record_user_turn service (asked body) s)
    response ←
        complete_logged
          (traced service s p conversation.id false (request_of service.settings p m history))
    reply ← on_conn (record_assistant_turn service (asked body) s conversation.id response.text)
    pure (record {
      conversation = conversation;
      user_message = message;
      assistant_message = reply;
      provider = name;
      model = m;
    })

  named_turn-Runs :
      (db : Db P) (start : ℕ) (site : Site P)
      → site.conn ≡ calm db start
      → CanOpen service (asked body) s body.conversation_id db
      → Fresh service (asked body) s db
      → ((i : ℕ) (history : List Message)
          → (traced service s adapter i false
              (request_of service.settings adapter model history)).ending
            ≡ finished)
      → Runs (from_names (provider, adapter, model)) site HasNames
  named_turn-Runs db start site at_start opens fresh ends =
      let Left : Conversation × Message × List Message → Conn P → Type 0 =
        Settles s.first_now (Asked service (asked body) s db) in
      bind-Runs (λ turn after. Left turn after.conn) HasNames
        (on_conn (record_user_turn service (asked body) s)) _ site
        (on_conn-Runs Left (record_user_turn service (asked body) s) site (
          subst (λ c. Runs (record_user_turn service (asked body) s) c Left) (sym at_start)
            (record_user_turn-Served service (asked body) s db start opens fresh)))
        (λ turn after (db', e, question). replies turn after db' s.first_now ends e question.ready)

  send-Runs :
      (db : Db P) (start : ℕ) (site : Site P)
      → resolve_model service.registry body.provider body.model ≡ ok (provider, model)
      → get service.registry (some provider) ≡ ok adapter
      → site.conn ≡ calm db start
      → CanOpen service (asked body) s body.conversation_id db
      → Fresh service (asked body) s db
      → ((i : ℕ) (history : List Message)
          → (traced service s adapter i false
              (request_of service.settings adapter model history)).ending
            ≡ finished)
      → Runs (send service (asked body) s) site HasNames
  unfolding send
  send-Runs db start site named found at_start opens fresh ends =
      bind-Runs (λ x after. (x ≡ (provider, adapter, model)) × (after ≡ site)) HasNames
        (resolved service (asked body)) _ site (resolved-Runs site named found)
        (λ x after both.
          subst {A = (String × Provider × String) × Site P}
            (λ y. Runs (from_names y.0) y.1 HasNames)
            (let whole : ((provider, adapter, model), site) ≡ (x, after) =
                cc (sym both.0, sym both.1) in
              whole)
            (named_turn-Runs db start site at_start opens fresh ends))

  -- For names that resolve to an adapter, a plain turn in a conversation that exists, or in none
  -- when the id that is drawn for one is free, is answered on a connection that serves every
  -- statement. The messages of every conversation must be numbered from 0 without a gap, the two
  -- ids of messages that are drawn be free and differ, and whatever history is sent to the adapter,
  -- its call go to its end with an event that the schema has room for and no cancellation in the
  -- publish. The answer names the provider and the model that were resolved and the conversation that
  -- was asked for, if one was, and holds the user's message and, as the assistant's, the whole text
  -- of one call of that provider for that model.
  pub chat-Answers :
      (db : Db P) (start : ℕ) (published : List InferenceEvent)
      → resolve_model service.registry body.provider body.model ≡ ok (provider, model)
      → get service.registry (some provider) ≡ ok adapter
      → CanOpen service (asked body) s body.conversation_id db
      → Fresh service (asked body) s db
      → ((i : ℕ) (history : List Message)
          → let request = request_of service.settings adapter model history in
            EndsAs
              (instrumented service.redactor adapter i false)
              request
              (s.call adapter request)
              finished)
      → (r : ChatResponse) × ((chat service body s
            (record { conn = calm db start; published = published })).0
          ≡ ok r)
        × IsAnswer service body s r
        × (r.provider ≡ provider)
        × (r.model ≡ model)
  unfolding chat
  chat-Answers db start published named found opens fresh ends =
      let site : Site P = record { conn = calm db start; published = published } in
      let (r, e, ours) : Runs (chat service body s) site AnswerNames =
        bind-Runs HasNames AnswerNames (send service (asked body) s) _ site
          (send-Runs db start site named found refl opens fresh
            (λ i history. stream_chat-ending _ _ _ finished (ends i history)))
          (λ result after named. (response_of result, refl, named)) in
      (
        r,
        e,
        Returns-ok (IsAnswer service body s) (chat service body s site) r
            (chat-IsAnswer service body s site) e,
        ours.0,
        ours.1,
      )
