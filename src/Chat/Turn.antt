-- ===== src/Chat/Turn.antt =====
-- backend/app/services/chat.py: one turn, sent at once or streamed. What the call of the provider
-- meets is an argument. A streamed turn is interrupted while it waits for a chunk, or closed where it
-- has yielded a text.
pub mod Shown
pub mod Opens
pub mod Served
pub mod Published
pub mod InBand
pub mod Partial
pub mod Stopped
pub mod Returns
pub mod Tests
use llm_inference_logger.Prelude.{
  ℕ, String, Bool, true, false, not, Option, none, some, List, [], ◌∷◌, ◌++◌, map, Text, join,
  if◌then◌else◌, keep,
}
use llm_inference_logger.Prelude.Outcome.{Result, ok, err, Exec, pure, raise, ◌>>=◌, ◌>>◌, continue}
use llm_inference_logger.Core.Errors.{
  Exn, AppError, app, other, provider_error, error_code, error_message,
}
use llm_inference_logger.Domain.Enums.{MessageRole}
use llm_inference_logger.Domain.Event.{InferenceEvent}
use llm_inference_logger.Db.Tables.{Conversation, Message}
use llm_inference_logger.Db.Session.{Sql, Conn, session}
use llm_inference_logger.Db.Conversations.{
  create, require, append_message, ensure_title, messages, strip,
}
use llm_inference_logger.Providers.Base.{
  Provider, ChatMessage, ChatRequest, StreamChunk, CompletedResponse, Ending, finished, raised,
  complete, clamp_output_tokens,
}
use llm_inference_logger.Providers.Registry.{Registry, get, resolve_model}
use llm_inference_logger.Instrumentation.Redaction.{Redactor}
use llm_inference_logger.Instrumentation.Wrapper.{Wrapped, Call, Traced, stream_chat, is_empty}
use llm_inference_logger.Chat.Window.{recent_window}

pub record TurnSettings : Type 0 where
  pub max_output_tokens : ℕ
  pub max_history_messages : ℕ
  pub max_history_chars : ℕ

-- The arguments of a turn.
pub record Ask : Type 0 where
  pub content : Text
  pub conversation_id : Option ℕ
  pub provider : Option String
  pub model : Option String

-- What the surroundings decide: the ids that are drawn, the times at which the two transactions
-- begin, the clock at the first text and at the end, and what the call of an adapter meets.
pub record Surroundings : Type 0 where
  pub new_conversation : ℕ
  pub user_id : ℕ
  pub assistant_id : ℕ
  pub first_now : ℕ
  pub second_now : ℕ
  pub ttft_ms : ℕ
  pub latency_ms : ℕ
  pub call : Provider → ChatRequest → Call

pub record ChatService : Type 0 where
  pub registry : Registry
  pub settings : TurnSettings
  pub redactor : Redactor

-- The database connection, and what has been published.
pub record Site (P : Type 0) : Type 0 where
  pub conn : Conn P
  pub published : List InferenceEvent

pub record ChatResult : Type 0 where
  pub conversation : Conversation
  pub user_message : Message
  pub assistant_message : Message
  pub provider : String
  pub model : String

pub data ChatStreamEvent : Type 0 where
  started : ℕ → String → String → ChatStreamEvent
  first_token : ℕ → ChatStreamEvent
  delta : Text → ChatStreamEvent
  completed : ℕ → ℕ → ChatStreamEvent
  failed : String → String → ChatStreamEvent

-- What a streamed turn has yielded, and how its generator stopped.
pub record Streamed : Type 0 where
  pub events : List ChatStreamEvent
  pub ending : Ending

-- The loop of `stream` over the chunks that come: chunks without text are passed over, and the
-- first text is announced.
unfoldable pub forward : Bool → ℕ → List StreamChunk → List ChatStreamEvent
forward seen ttft [] = []
forward true ttft (c ∷ cs) =
    let rest = forward true ttft cs in
    if is_empty c.delta_text then rest else delta c.delta_text ∷ rest
forward false ttft (c ∷ cs) =
    let before = forward false ttft cs in
    let after = forward true ttft cs in
    if is_empty c.delta_text then before else first_token ttft ∷ delta c.delta_text ∷ after

-- `"".join(parts)`, where `parts` has the texts that are not empty.
abbrev pub parts_of : List StreamChunk → Text
parts_of cs = join (keep (λ t. not (is_empty t)) (map (λ c. c.delta_text) cs))

abbrev pub request_of : TurnSettings → Provider → String → List Message → ChatRequest
request_of settings adapter model history = record {
  messages = map (λ m. record { role = m.role; content = m.content }) history;
  model = model;
  max_output_tokens = clamp_output_tokens adapter settings.max_output_tokens;
  system = none;
}

abbrev pub instrumented : Redactor → Provider → ℕ → Bool → Wrapped
instrumented redactor adapter i streamed = record {
  inner_name = adapter.name;
  conversation_id = some i;
  streamed = streamed;
  redactor = redactor;
}

-- The call of the instrumented adapter.
abbrev pub traced : ChatService → Surroundings → Provider → ℕ → Bool → ChatRequest → Traced
traced service s adapter i streamed request =
    stream_chat (instrumented service.redactor adapter i streamed) request (s.call adapter request)

abbrev pub report : AppError → ChatStreamEvent
report e = failed (error_code e) (error_message e)

abbrev pub Turn : Type 0 → Type 0 → Type 0
Turn P A = Exec (Site P) Exn A

module _ {P : Type 0} where
  abbrev pub lift : {A : Type 0} → Result Exn A → Turn P A
  lift r site = (r, site)

  abbrev pub on_conn : {A : Type 0} → Sql P A → Turn P A
  on_conn m site = let (r, c) = m site.conn in (r, record site { conn = c })

  -- `instrumented.complete(request)`
  unfoldable pub complete_logged : Traced → Turn P CompletedResponse
  complete_logged t site = (
    complete (record { chunks = t.yielded; ending = t.ending }),
    record site { published = site.published ++ t.published },
  )

  -- The names and the adapter that a turn is for.
  unfoldable pub resolved : ChatService → Ask → Turn P (String × Provider × String)
  resolved service ask = do
    (provider, model) ← lift (resolve_model service.registry ask.provider ask.model)
    adapter ← lift (get service.registry (some provider))
    pure (provider, adapter, model)

module _ {P : Type 0} (service : ChatService) (ask : Ask) (s : Surroundings) where
  abbrev pub open_conversation : Option ℕ → Sql P Conversation
  open_conversation none = create s.new_conversation none
  open_conversation (some i) = require i

  -- `_record_user_turn`
  unfoldable pub record_user_turn : Sql P (Conversation × Message × List Message)
  record_user_turn = session s.first_now (do
    conversation ← open_conversation ask.conversation_id
    message ← append_message s.user_id conversation.id MessageRole.user ask.content
    ensure_title conversation.id ask.content
    history ← messages conversation.id
    pure (
      conversation,
      message,
      recent_window history service.settings.max_history_messages
          service.settings.max_history_chars,
    ))

  -- `_record_assistant_turn`
  unfoldable pub record_assistant_turn : ℕ → Text → Sql P Message
  record_assistant_turn i content =
      session s.second_now (append_message s.assistant_id i MessageRole.assistant content)

  -- `_persist_partial`, which no cancellation stops.
  unfoldable pub persist_partial : ℕ → Text → Sql P (Unit {0})
  persist_partial i text =
      if is_empty (strip text)
      then pure tt
      else (record_assistant_turn i (strip text) >>= λ _. pure tt)

  -- `send`
  unfoldable pub send : Turn P ChatResult
  send = do
    (provider, adapter, model) ← resolved service ask
    (conversation, message, history) ← on_conn record_user_turn
    response ← complete_logged (
        traced service s adapter conversation.id false
          (request_of service.settings adapter model history))
    reply ← on_conn (record_assistant_turn conversation.id response.text)
    pure (record {
      conversation = conversation;
      user_message = message;
      assistant_message = reply;
      provider = provider;
      model = model;
    })

  -- `prepare`
  unfoldable pub prepare : Turn P (String × String)
  prepare = do
    named ← lift (resolve_model service.registry ask.provider ask.model)
    elim ask.conversation_id [
      | none ↦ pure tt
      | some i ↦ on_conn (session s.first_now (require i)) >>= λ _. pure tt
    ]
    pure named

  -- The end of a streamed turn, by how its loop stopped.
  abbrev pub completion : Result Exn Message × Conn P → List ChatStreamEvent × Ending × Conn P
  completion (ok m, c) = (completed m.id s.latency_ms ∷ [], finished, c)
  completion (err e, c) = ([], raised e, c)

  -- After the partial text has been stored, or could not be.
  abbrev pub interrupted :
      List ChatStreamEvent
      → Ending
      → Result Exn (Unit {0}) × Conn P
      → List ChatStreamEvent × Ending × Conn P
  interrupted events ending (ok _, c) = (events, ending, c)
  interrupted events ending (err e, c) = ([], raised e, c)

  unfoldable pub conclude : ℕ → Text → Ending → Conn P → List ChatStreamEvent × Ending × Conn P
  conclude i text finished c = completion (record_assistant_turn i text c)
  conclude i text (raised Exn.cancelled) c =
      interrupted [] (raised Exn.cancelled) (persist_partial i text c)
  conclude i text (raised (app (provider_error m p r t))) c =
      interrupted (report (provider_error m p r t) ∷ []) finished (persist_partial i text c)
  conclude i text (raised (app e)) c = (report e ∷ [], finished, c)
  conclude i text (raised e) c = ([], raised e, c)

  -- From `yield StreamStarted` on.
  unfoldable pub converse :
      String
      → Provider
      → String
      → Conversation × Message × List Message
      → Site P
      → Streamed × Site P
  converse provider adapter model (conversation, message, history) site =
      let t =
        traced service s adapter conversation.id true
          (request_of service.settings adapter model history) in
      let (events, ending, c) = conclude conversation.id (parts_of t.yielded) t.ending site.conn in
      (
        record {
          events =
              started conversation.id provider model ∷ forward false s.ttft_ms t.yielded ++ events;
          ending = ending;
        },
        record { conn = c; published = site.published ++ t.published },
      )

  abbrev pub after_user_turn :
      String
      → Provider
      → String
      → Result Exn (Conversation × Message × List Message) × Site P
      → Streamed × Site P
  after_user_turn provider adapter model (ok turn, site) = converse provider adapter model turn site
  after_user_turn provider adapter model (err (app e), site) =
      (record { events = report e ∷ []; ending = finished }, site)
  after_user_turn provider adapter model (err e, site) =
      (record { events = []; ending = raised e }, site)

  abbrev pub after_resolve : Result Exn (String × Provider × String) × Site P → Streamed × Site P
  after_resolve (ok (provider, adapter, model), site) =
      after_user_turn provider adapter model (on_conn record_user_turn site)
  after_resolve (err e, site) = (record { events = []; ending = raised e }, site)

  -- `stream`
  unfoldable pub stream : Site P → Streamed × Site P
  stream site = after_resolve (resolved service ask site)
