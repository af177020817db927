-- ===== src/Api/Chat/Reply.antt =====
-- What a plain turn answers.
use llm_inference_logger.Prelude.{
  ℕ, String, ◌≡◌, refl, sym, subst, false, some, List, map, arith, Text, join,
}
use llm_inference_logger.Db.Session.{Sql, Conn}
use llm_inference_logger.Db.Tables.{Message, Conversation}
use llm_inference_logger.Domain.Enums.{MessageRole}
use llm_inference_logger.Api.Chat.{ChatRequestBody, ChatResponse, chat, asked, response_of}
use llm_inference_logger.Instrumentation.Wrapper.{Call, stream_chat, Wrapped}
use llm_inference_logger.Chat.Turn.Opens.{Continues}
use llm_inference_logger.Chat.Turn.Returns.{
  Says, Opened, record_user_turn-Returns, record_assistant_turn-Returns,
}
use llm_inference_logger.Chat.Turn.{
  Surroundings, ChatService, record_user_turn, record_assistant_turn, Site, on_conn, traced,
  complete_logged, send, request_of, resolved, lift,
}
use llm_inference_logger.Providers.Base.{
  raised, finished, deltas, Provider, ChatRequest, StreamChunk, complete, Ending, CompletedResponse,
  text-complete,
}
use llm_inference_logger.Prelude.Outcome.{Result, ok, err, ◌>>=◌, pure}
use llm_inference_logger.Providers.Registry
use llm_inference_logger.Core.Errors.{Exn}
use llm_inference_logger.Prelude.Outcome.Returns.{Returns, bind-Returns, then-Returns}
use llm_inference_logger.Providers.Registry.{resolve_model}

-- The reply that a call of an adapter gave, to its end.
abbrev pub RepliedIn : Call → Text → Type 0
RepliedIn call text =
    (call.ending ≡ finished) × (text ≡ join (deltas (map (λ a. a.chunk) call.arrivals)))

-- The answer to a request: `reply_content` is the text of a call of the provider that the answer
-- names, for the model that it names.
pub record IsAnswer (service : ChatService) (body : ChatRequestBody) (s : Surroundings)
    (r : ChatResponse) : Type 0 where
  pub in_conversation : Continues body.conversation_id r.conversation_id
  pub asked_role : r.user_message.role ≡ MessageRole.user
  pub asked_content : r.user_message.content ≡ body.content
  pub reply_role : r.assistant_message.role ≡ MessageRole.assistant
  pub reply_content :
      (p : Provider) × (request : ChatRequest) × (Registry.get service.registry (some r.provider)
        ≡ ok p)
      × (request.model ≡ r.model)
      × RepliedIn (s.call p request) r.assistant_message.content

on_conn-Returns :
    {P A : Type 0} (R : A → Type 0) (m : Sql P A) (site : Site P)
    → Returns R (m site.conn)
    → Returns R (on_conn m site)
on_conn-Returns R m site h = at (m site.conn) h
  where
    at : (x : Result Exn _ × Conn _) → Returns R x → Returns R (x.0, record site { conn = x.1 })
    at (ok a, c) h = h
    at (err e, c) h = h

lift-Returns :
    {P A : Type 0} (r : Result Exn A) (site : Site P) → Returns (λ a. r ≡ ok a) (lift r site)
lift-Returns (ok a) site = refl
lift-Returns (err e) site = tt

-- A reply that was drained had its end.
abbrev Drained : List StreamChunk → Ending → CompletedResponse → Type 0
Drained chunks ending response = (ending ≡ finished) × (response.text ≡ join (deltas chunks))

complete-Returns :
    {S : Type 0} (chunks : List StreamChunk) (ending : Ending) (site : S)
    → Returns (Drained chunks ending) (complete (record { chunks = chunks; ending = ending }), site)
unfolding complete
complete-Returns chunks finished site =
    let (r, e, text) = text-complete (record { chunks = chunks; ending = finished }) refl in
    subst (λ x. Returns (Drained chunks finished) (x, site)) (sym e) (refl, text)
complete-Returns chunks (raised e) site = tt

ending-finished :
    (w : Wrapped) (request : ChatRequest) (c : Call)
    → (stream_chat w request c).ending ≡ finished
    → c.ending ≡ finished
unfolding stream_chat
ending-finished w request c h = ground (arith, h)

traced-RepliedIn :
    (service : ChatService) (s : Surroundings) (p : Provider) (i : ℕ) (request : ChatRequest)
    (response : CompletedResponse)
    → (let t = traced service s p i false request in Drained t.yielded t.ending response)
    → RepliedIn (s.call p request) response.text
unfolding stream_chat
traced-RepliedIn service s p i request response (ended, text) =
    (ending-finished _ request (s.call p request) ended, text)

-- The adapter is the one that the registry has under the name.
abbrev Resolves : ChatService → String × Provider × String → Type 0
Resolves service found = Registry.get service.registry (some found.0) ≡ ok found.1

module _ {P : Type 0} (service : ChatService) (body : ChatRequestBody) (s : Surroundings) where
  reply-Returns :
      (p : Provider) (model : String) (turn : Conversation × Message × List Message)
      → Opened (asked body) turn
      → (name : String) (site : Site P) → Registry.get service.registry (some name) ≡ ok p
      → Returns
          (λ r. IsAnswer service body s (response_of r))
          ((complete_logged
                (traced service s p turn.0.id false (request_of service.settings p model turn.2))
              >>= λ response.
                  on_conn (record_assistant_turn service (asked body) s turn.0.id response.text)
                  >>= λ reply. pure (record {
                    conversation = turn.0;
                    user_message = turn.1;
                    assistant_message = reply;
                    provider = name;
                    model = model;
                  }))
            site)
  unfolding complete_logged
  reply-Returns p model turn (known, said) name site named =
      let request = request_of service.settings p model turn.2 in
      let t = traced service s p turn.0.id false request in
      bind-Returns (Drained t.yielded t.ending) _ (complete_logged t) _
        (λ site'. complete-Returns t.yielded t.ending _)
        (λ response drained.
          bind-Returns (Says MessageRole.assistant response.text) _
            (on_conn (record_assistant_turn service (asked body) s turn.0.id response.text)) _
            (λ site'.
              on_conn-Returns (Says MessageRole.assistant response.text)
                (record_assistant_turn service (asked body) s turn.0.id response.text) site'
                (record_assistant_turn-Returns service (asked body) s turn.0.id response.text
                  site'.conn))
            (λ reply says site'. record {
              in_conversation = known;
              asked_role = said.0;
              asked_content = said.1;
              reply_role = says.0;
              reply_content = (
                p,
                request,
                named,
                refl,
                subst (λ x. RepliedIn (s.call p request) x) (sym says.1)
                    (traced-RepliedIn service s p turn.0.id request response drained),
              );
            }))
        site

  resolved-Returns :
      (site : Site P) → Returns (Resolves service) (resolved service (asked body) site)
  unfolding resolved
  resolved-Returns =
      then-Returns (Resolves service)
        (lift (resolve_model service.registry body.provider body.model)) _
        (λ named.
          bind-Returns (λ adapter. Registry.get service.registry (some named.0) ≡ ok adapter)
            (Resolves service) (lift (Registry.get service.registry (some named.0))) _
            (λ site. lift-Returns (Registry.get service.registry (some named.0)) site)
            (λ adapter found site. found))

  send-Returns :
      (site : Site P)
      → Returns (λ r. IsAnswer service body s (response_of r)) (send service (asked body) s site)
  unfolding send
  send-Returns =
      bind-Returns (Resolves service) _ (resolved service (asked body)) _ resolved-Returns
        (λ found named.
          bind-Returns (Opened (asked body)) _ (on_conn (record_user_turn service (asked body) s)) _
            (λ site.
              on_conn-Returns (Opened (asked body)) (record_user_turn service (asked body) s) site
                (record_user_turn-Returns service (asked body) s site.conn))
            (λ turn known site. reply-Returns found.1 found.2 turn known found.0 site named))

  -- Whatever the database and the provider do: where the plain turn answers, the answer names the
  -- conversation that was asked for, if one was, and holds the user's message as it was sent and, as
  -- the assistant's, the whole text of one call that went to its end: a call of the provider that
  -- the answer names, for the model that it names.
  pub chat-IsAnswer : (site : Site P) → Returns (IsAnswer service body s) (chat service body s site)
  unfolding chat
  chat-IsAnswer =
      bind-Returns (λ r. IsAnswer service body s (response_of r)) _ (send service (asked body) s) _
        send-Returns (λ r h _. h)
