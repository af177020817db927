-- ===== src/Chat/Turn/Stopped.antt =====
-- A streamed turn whose user leaves: what was shown, and what is kept of it. A task that is cancelled
-- while it waits for a chunk has the cancellation raised in the generator; a generator that is closed
-- where it yields has GeneratorExit raised there.
use mathlib.Core.List.{map-append}
use llm_inference_logger.Prelude.{
  ℕ, String, ◌≡◌, refl, sym, ap, ◌∙◌, subst, true, false, some, List, [], ◌∷◌, ◌++◌, map,
  append-nil, append_assoc, arith, Text, if◌then◌else◌,
}
use llm_inference_logger.Db.Tables.{Db, Message, Conversation}
use llm_inference_logger.Chat.Turn.{
  ChatService, Ask, Surroundings, conclude, converse, Streamed, Site, request_of, instrumented,
  traced, parts_of, started, forward, ChatStreamEvent, stream, on_conn, record_user_turn,
  after_resolve, after_user_turn,
}
use llm_inference_logger.Domain.Enums.{MessageRole, InferenceStatus}
use llm_inference_logger.Core.Errors.{Exn}
use llm_inference_logger.Instrumentation.Wrapper.{is_empty, build_event, verdict_of}
use llm_inference_logger.Db.Conversations.{in_order, strip}
use llm_inference_logger.Db.Conversations.Served.{Ready}
use llm_inference_logger.Providers.Base.{raised, Provider, Ending}
use llm_inference_logger.Db.Conversations.Seq.{calm, appended}
use llm_inference_logger.Chat.Turn.Partial.{conclude-cancelled}
use llm_inference_logger.Domain.Event.{InferenceEvent}
use llm_inference_logger.Chat.Turn.Opens.{Continues}
use llm_inference_logger.Chat.Turn.Served.{
  Asked, CanOpen, Fresh, record_user_turn-Served, resolved-is,
}
use llm_inference_logger.Chat.Turn.Shown.{shown, forward-shown}
use llm_inference_logger.Instrumentation.Wrapper.Once.{
  EndsAs, stream_chat-ending, one-event-per-call,
}
use llm_inference_logger.Providers.Registry.{resolve_model, get}
use llm_inference_logger.Prelude.Outcome.{ok}

pub data Stop : Type 0 where
  while_waiting : Stop
  at_a_yield : Stop

abbrev pub exn_of : Stop → Exn
exn_of while_waiting = Exn.cancelled
exn_of at_a_yield = Exn.generator_exit

abbrev said : Message → MessageRole × Text
said m = (m.role, m.content)

-- Who said what in a conversation, in its order.
abbrev pub transcript : {P : Type 0} → ℕ → Db P → List (MessageRole × Text)
transcript i db = map said (in_order i db)

-- What is kept of a text that was shown.
abbrev pub kept : Stop → Text → List (MessageRole × Text)
kept at_a_yield text = []
kept while_waiting text =
    if is_empty (strip text) then [] else (MessageRole.assistant, strip text) ∷ []

said-is :
    (m : Message) (r : MessageRole) (text : Text)
    → m.role ≡ r
    → m.content ≡ text
    → said m ∷ [] ≡ (r, text) ∷ []
said-is m r text e f = cc (e, f)

status-cancelled :
    (how : Stop) → (verdict_of (raised (exn_of how))).status ≡ InferenceStatus.cancelled
unfolding verdict_of
status-cancelled while_waiting = refl
status-cancelled at_a_yield = refl

transcript-append :
    {P : Type 0} (i : ℕ) (before after : Db P) (ms : List Message)
    → in_order i after ≡ in_order i before ++ ms
    → transcript i after ≡ transcript i before ++ map said ms
transcript-append i before after ms e = ap (map said) e ∙ map-append said (in_order i before) ms

module _ {P : Type 0} (service : ChatService) (ask : Ask) (s : Surroundings) where
  conclude-kept :
      (how : Stop) (i : ℕ) (text : Text) (db : Db P) (now : ℕ)
      → Ready i s.assistant_id db
      → let (events, ending, c) =
          conclude service ask s i text (raised (exn_of how)) (calm db now) in
        (events ≡ [])
        × (ending ≡ raised (exn_of how))
        × (transcript i c.db ≡ transcript i db ++ kept how text)
  unfolding conclude
  conclude-kept at_a_yield i text db now r = (refl, refl, sym (append-nil (transcript i db)))
  conclude-kept while_waiting i text db now r =
      let done = conclude-cancelled service ask s i text db now r.known r.unused r.numbered in
      let row = appended s.assistant_id i MessageRole.assistant (strip text) db s.second_now in
      let said : map said (if is_empty (strip text) then [] else row ∷ [])
          ≡ kept while_waiting text =
        ground arith in
      (
        done.0,
        done.1,
        transcript-append i db
              (conclude service ask s i text (raised Exn.cancelled) (calm db now)).2.db
              (if is_empty (strip text) then [] else row ∷ []) done.2
            ∙ ap (◌++◌ (transcript i db)) said,
      )

  -- What holds of a turn that was stopped.
  pub record IsStopped (how : Stop) (db : Db P) (published : List InferenceEvent) (i : ℕ)
      (ev : InferenceEvent) (x : Streamed × Site P) : Type 0 where
    continues : Continues ask.conversation_id i
    ending : x.0.ending ≡ raised (exn_of how)
    logged : x.1.published ≡ published ++ ev ∷ []
    cancelled : ev.status ≡ InferenceStatus.cancelled
    stored :
        transcript i x.1.conn.db
        ≡ transcript i db ++ (MessageRole.user, ask.content) ∷ kept how (shown x.0.events)

  converse-IsStopped :
      (how : Stop) (provider model : String) (adapter : Provider) (db db1 : Db P) (now : ℕ)
      (published : List InferenceEvent) (turn : Conversation × Message × List Message)
      → Asked service ask s db turn db1
      → (let request = request_of service.settings adapter model turn.2 in
          EndsAs
            (instrumented service.redactor adapter turn.0.id true)
            request
            (s.call adapter request)
            (raised (exn_of how)))
      → (ev : InferenceEvent) × IsStopped how db published turn.0.id ev (
          converse service ask s provider adapter model turn
            (record { conn = calm db1 now; published = published }))
  unfolding converse build_event
  converse-IsStopped how provider model adapter db db1 now published turn question ends =
      let request = request_of service.settings adapter model turn.2 in
      let w = instrumented service.redactor adapter turn.0.id true in
      let t = traced service s adapter turn.0.id true request in
      let text = parts_of t.yielded in
      let end = stream_chat-ending w request (s.call adapter request) (raised (exn_of how)) ends in
      let once = one-event-per-call w request (s.call adapter request) ends.publishable in
      let i = turn.0.id in
      let Left : Ending → Type 0 = λ e.
        let (events, ending, c) = conclude service ask s i text e (calm db1 now) in
        (events ≡ [])
        × (ending ≡ raised (exn_of how))
        × (transcript i c.db ≡ transcript i db1 ++ kept how text) in
      let done : Left t.ending =
        subst Left (sym end) (conclude-kept how i text db1 now question.ready) in
      let yields : List ChatStreamEvent → List ChatStreamEvent =
        λ es. started i provider model ∷ forward false s.ttft_ms t.yielded ++ es in
      let on_screen : shown (yields (conclude service ask s i text t.ending (calm db1 now)).0)
          ≡ text =
        ap (λ es. shown (yields es)) done.0
        ∙ ap shown (append-nil (forward false s.ttft_ms t.yielded))
        ∙ (forward-shown s.ttft_ms t.yielded).1 in
      let row = said-is turn.1 MessageRole.user ask.content question.role question.content in
      (
        build_event w request (s.call adapter request),
        record {
          continues = question.continues;
          ending = done.1;
          logged = ap (λ es. published ++ es) once.0;
          cancelled = ap (λ e. (verdict_of e).status) ends.ended ∙ status-cancelled how;
          stored =
              done.2
              ∙ ap (λ us. us ++ kept how text)
                  (transcript-append i db db1 (turn.1 ∷ []) question.last)
              ∙ append_assoc (transcript i db) _ (kept how text)
              ∙ ap (λ us. transcript i db ++ (us ++ kept how text)) row
              ∙ ap (λ z. transcript i db ++ (MessageRole.user, ask.content) ∷ kept how z)
                  (sym on_screen);
        },
      )

  -- A streamed turn that is stopped ends with the exception that stopped it, logs one call as
  -- cancelled, and adds the question to its conversation. What was shown is added after it, without
  -- the white space around it, if the turn was waiting for a chunk; white space alone is not. If the
  -- turn was closed where it yields, nothing that was shown is kept. This is for names that resolve
  -- to an adapter, on a connection that serves every statement (a text that Postgres does not take is
  -- a statement that it refuses), in a conversation that exists, or in none when the id that is drawn
  -- for one is free. The messages of every conversation must be
  -- numbered from 0 without a gap, the two ids of messages that are drawn be free and differ, and,
  -- whatever history is sent to the adapter, its call be stopped by that exception, with an event
  -- that the schema has room for and no other cancellation in the publish.
  pub stream-IsStopped :
      (how : Stop) (provider model : String) (adapter : Provider) (db : Db P) (start : ℕ)
      (published : List InferenceEvent)
      → resolve_model service.registry ask.provider ask.model ≡ ok (provider, model)
      → get service.registry (some provider) ≡ ok adapter
      → CanOpen service ask s ask.conversation_id db
      → Fresh service ask s db
      → ((i : ℕ) (history : List Message)
          → let request = request_of service.settings adapter model history in
            EndsAs
              (instrumented service.redactor adapter i true)
              request
              (s.call adapter request)
              (raised (exn_of how)))
      → (i : ℕ) × (ev : InferenceEvent) × IsStopped how db published i ev
          (stream service ask s (record { conn = calm db start; published = published }))
  unfolding stream
  stream-IsStopped how provider model adapter db start published named found opens fresh ends =
      let site : Site P = record { conn = calm db start; published = published } in
      let (turn, ran, (db1, rest, question)) =
        record_user_turn-Served service ask s db start opens fresh in
      let began : on_conn (record_user_turn service ask s) site
          ≡ (ok turn, record { conn = calm db1 s.first_now; published = published }) =
        cc (ran, rest) in
      let whole =
        ap (after_resolve service ask s)
          (resolved-is service ask s provider model adapter site named found)
        ∙ ap (after_user_turn service ask s provider adapter model) began in
      let (ev, stopped) =
        converse-IsStopped how provider model adapter db db1 s.first_now published turn question
          (ends turn.0.id turn.2) in
      (turn.0.id, ev, subst (IsStopped how db published turn.0.id ev) (sym whole) stopped)
