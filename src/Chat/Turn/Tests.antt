-- ===== src/Chat/Turn/Tests.antt =====
-- A streamed turn through a registry of one provider, and the theorems on it.
use llm_inference_logger.Prelude.{
  String, ◌≡◌, refl, true, false, none, some, List, [], ◌∷◌, map, str_eq, codes, length, ◌++◌, All,
  ℕ, Bool, arith,
}
use llm_inference_logger.Core.Errors.{app, provider_error, Exn}
use llm_inference_logger.Db.Tables.{empty_db, Message}
use llm_inference_logger.Db.Session.{session, statement}
use llm_inference_logger.Db.Conversations.Seq.{calm}
use llm_inference_logger.Providers.Base.{Provider, StreamChunk, Ending, finished, raised}
use llm_inference_logger.Providers.Registry.{get, resolve_model}
use llm_inference_logger.Instrumentation.Redaction.{preview, redact, clip}
use llm_inference_logger.Instrumentation.Wrapper.{
  stream_chat, build_event, verdict_of, observe_all, observe, merge_usage, last_user_text,
  first_user,
}
use llm_inference_logger.Chat.Turn.{
  request_of, instrumented, ChatService, Ask, Surroundings, Site, started, first_token, delta,
  completed, stream, forward, resolved, record_user_turn, converse, conclude, record_assistant_turn,
  send,
}
use llm_inference_logger.Db.Conversations
use llm_inference_logger.Chat.Turn.Shown.{shown}
use llm_inference_logger.Chat.Turn.InBand.{EndsForeign, stream-EndsForeign}
use llm_inference_logger.Db.Conversations.{
  create, append_message, insert_message, ensure_title, messages, next_seq, in_order,
}
use llm_inference_logger.Domain.Event.{is_valid, check_invariants, fields_ok, InferenceEvent}
use llm_inference_logger.Chat.Window.{recent_window, keep_within, last_messages}
use llm_inference_logger.Prelude.Order.{order_by, insert_sorted}
use llm_inference_logger.Chat.Turn.Published.{NamesKnown, turns-NamesKnown}
use llm_inference_logger.Instrumentation.Wrapper.Once.{FitsSchema, EndsWell, Publishable}
use llm_inference_logger.Chat.Turn.Stopped.{IsStopped, at_a_yield, stream-IsStopped}

abbrev chunk : String → StreamChunk
chunk t = record { delta_text = codes t; finish_reason = none; usage = none; metadata = [] }

abbrev chunks : List StreamChunk
chunks = chunk "" ∷ chunk "he" ∷ chunk "" ∷ chunk "y" ∷ []

abbrev pub adapter : Provider
adapter = record {
  name = "mock";
  default_model = "mock";
  supported_models = "mock" ∷ [];
  supports_model = str_eq "mock";
  max_output_tokens_cap = some 64;
  is_configured = true;
  stream_chat = λ _. record { chunks = chunks; ending = finished };
}

abbrev pub service : ChatService
service = record {
  registry = record { providers = adapter ∷ []; default = "mock" };
  settings = record { max_output_tokens = 100; max_history_messages = 4; max_history_chars = 100 };
  redactor = record { max_chars = 10; enabled = false; rules = [] };
}

abbrev pub ask : Ask
ask = record { content = codes "hello"; conversation_id = none; provider = none; model = none }

abbrev pub around : Ending → Surroundings
around ending = record {
  new_conversation = 1;
  user_id = 2;
  assistant_id = 3;
  first_now = 10;
  second_now = 20;
  ttft_ms = 4;
  latency_ms = 9;
  call = λ _ _. record {
    event_id = 7;
    started_at = 11;
    start = 0;
    arrivals = map (λ c. record { chunk = c; clock = 4000 }) chunks;
    ending = ending;
    completed_at = 12;
    stop = 9000;
    cancelled_in_publish = false;
  };
}

abbrev pub site : Site (Unit {0})
site = record { conn = calm (empty_db Unit) 0; published = [] }

abbrev failure : Ending
failure = raised (app (provider_error "overloaded" "mock" true none))

-- A turn that ends well stores the question and the reply and publishes one event.
stored :
    let (streamed, after) = stream service ask (around finished) site in
    (streamed.events
      ≡ started 1 "mock" "mock"
        ∷ first_token 4
        ∷ delta (codes "he")
        ∷ delta (codes "y")
        ∷ completed 3 9
        ∷ [])
    × (map (λ m. m.content) after.conn.db.messages ≡ codes "hello" ∷ codes "hey" ∷ [])
    × (length after.published ≡ 1)
unfolding stream resolved resolve_model get record_user_turn session create statement append_message
    llm_inference_logger.Db.Conversations.get insert_message ensure_title messages converse forward
    stream_chat conclude is_valid record_assistant_turn next_seq check_invariants fields_ok
    build_event verdict_of observe_all observe merge_usage preview redact clip last_user_text
    first_user recent_window keep_within last_messages order_by insert_sorted
stored = (refl, refl, refl)

stream-EndsForeign_example : EndsForeign (stream service ask (around failure) site).0.ending
unfolding resolved resolve_model get
stream-EndsForeign_example = stream-EndsForeign service ask (around failure) site refl

-- A chunk that reports nothing.
no_usage :
    (text : String)
    → FitsSchema (record {
      chunk = record { delta_text = codes text; finish_reason = none; usage = none; metadata = [] };
      clock = 4000;
    })
no_usage text = record { input = refl; output = refl; reason = refl }

-- The schema has room for the calls of the adapter, however they end.
pub publishable :
    (history : List Message) (i : ℕ) (streamed : Bool) (ending : Ending)
    → EndsWell ending
    → Publishable
        (instrumented service.redactor adapter i streamed)
        (request_of service.settings adapter "mock" history)
        ((around ending).call adapter (request_of service.settings adapter "mock" history))
publishable history i streamed ending well = record {
  named = (omega arith, omega arith);
  model = (omega arith, omega arith);
  forward = omega arith;
  ends_well = well;
  arrivals = (no_usage "", (no_usage "he", (no_usage "", (no_usage "y", tt))));
}

abbrev closed : Surroundings
closed = around (raised Exn.generator_exit)

stream-IsStopped_example :
    (i : ℕ) × (ev : InferenceEvent) × IsStopped service ask closed at_a_yield
      (empty_db Unit)
      []
      i
      ev
      (stream service ask closed site)
unfolding resolve_model get
stream-IsStopped_example =
    stream-IsStopped service ask closed at_a_yield "mock" "mock" adapter (empty_db Unit) 0 [] refl
      refl refl
      (record {
        numbered = λ i. tt;
        user = refl;
        assistant = refl;
        apart = λ e. absurd (omega (arith, e));
      })
      (λ i history. record {
        publishable = publishable history i true (raised Exn.generator_exit) tt;
        ended = refl;
        undisturbed = refl;
      })

-- A turn that is closed after "hey" was shown keeps the question alone.
lost :
    let (streamed, after) = stream service ask closed site in
    (shown streamed.events ≡ codes "hey")
    × (map (λ m. m.content) after.conn.db.messages ≡ codes "hello" ∷ [])
unfolding stream resolved resolve_model get record_user_turn session create statement append_message
    llm_inference_logger.Db.Conversations.get insert_message ensure_title messages converse forward
    stream_chat conclude is_valid next_seq check_invariants fields_ok build_event verdict_of
    observe_all observe merge_usage preview redact clip last_user_text first_user recent_window
    keep_within last_messages order_by insert_sorted
lost = (refl, refl)

turns-NamesKnown_example :
    ((new : List InferenceEvent) × ((stream service ask (around failure) site).1.published
        ≡ [] ++ new)
      × All (NamesKnown (stream service ask (around failure) site).1.conn.db) new)
    × ((new : List InferenceEvent) × ((send service ask (around failure) site).1.published
          ≡ [] ++ new)
        × All (NamesKnown (send service ask (around failure) site).1.conn.db) new)
turns-NamesKnown_example = turns-NamesKnown service ask (around failure) site
