-- ===== src/App.antt =====
-- The composition roots: `lifespan` of backend/app/main.py, `_run` and `_build_stream` of
-- backend/app/worker/__main__.py, backend/app/events/factory.py, and what backend/app/api/deps.py hands
-- to a chat turn.
pub mod Shutdown
pub mod Mock
mod Tests
use llm_inference_logger.Prelude.{String, Option, none, some, List, [], ◌∷◌}
use llm_inference_logger.Core.Errors.{Exn, other}
use llm_inference_logger.Providers.Base.{Ending, raised}
use llm_inference_logger.Instrumentation.Redaction.Pattern.{Unicode}
use llm_inference_logger.Events.Redis.{StreamSettings}
use llm_inference_logger.Core.Config.{EventBusBackend, Settings}
use llm_inference_logger.Chat.Turn.{TurnSettings, ChatService}
use llm_inference_logger.Instrumentation.Redaction.{Redactor}
use llm_inference_logger.Prelude.Outcome.{Result, err, ok}
use llm_inference_logger.Providers.Registry.{Registry}
use llm_inference_logger.Instrumentation.Redaction.Rules.{default_rules}

-- What a process holds for as long as it runs.
pub data Resource : Type 0 where
  database : Resource
  registry : Resource
  event_bus : Resource
  redactor : Resource
  event_stream : Resource

pub data Moment : Type 0 where
  acquired : Resource → Moment
  serving : Moment
  drained : Moment
  closed : Resource → Moment

-- Which constructors and which closings raise, and what.
pub record Weather : Type 0 where
  pub opening : Resource → Option Exn
  pub closing : Resource → Option Exn

-- What has happened, and how the process has ended.
abbrev pub Run : Type 0
Run = List Moment × Ending

-- One step, and the rest where it did not raise.
abbrev pub step : Option Exn → Moment → Run → Run
step (some e) m rest = ([], raised e)
step none m (ms, ending) = (m ∷ ms, ending)

abbrev pub acquire : Weather → Resource → Run → Run
acquire w r rest = step (w.opening r) (acquired r) rest

-- The last steps: an exception in them replaces how the body ended.
abbrev pub close : Weather → Resource → Run → Run
close w r rest = step (w.closing r) (closed r) rest

abbrev pub then_ : Moment → Run → Run
then_ m (ms, ending) = (m ∷ ms, ending)

-- The `finally` of `lifespan`. A drain does not raise.
unfoldable pub release : Weather → Ending → Run
release w ending = then_ drained (close w event_bus (close w database ([], ending)))

-- `lifespan`, around a body that ends somehow. The `try` begins after the last acquisition.
unfoldable pub lifespan : Weather → Ending → Run
unfolding release
lifespan w ending = acquire w database (
    acquire w registry
      (acquire w event_bus (acquire w redactor (then_ serving (release w ending)))))

-- `create_event_bus`: which transport the API publishes to.
pub data Transport : Type 0 where
  in_memory : Transport
  over_redis : StreamSettings → Transport

-- The settings that the two halves of the Redis bus read. Only the consumer has a name.
abbrev pub stream_settings : Settings → String → StreamSettings
stream_settings s consumer = record {
  event_stream_name = s.event_stream_name;
  event_stream_dlq = s.event_stream_dlq;
  event_consumer_group = s.event_consumer_group;
  event_stream_maxlen = s.event_stream_maxlen;
  event_publish_timeout = s.event_publish_timeout_ms;
  consumer = consumer;
}

unfoldable pub create_event_bus : Settings → Transport
create_event_bus s = elim (s.event_bus_backend) [
  | EventBusBackend.memory ↦ in_memory
  | EventBusBackend.redis ↦ over_redis (stream_settings s "")
]

-- `_build_stream`
abbrev pub no_stream : Exn
no_stream =
    other "RuntimeError"
      "EVENT_BUS_BACKEND=memory has no cross-process stream; set EVENT_BUS_BACKEND=redis to run the worker."

unfoldable pub build_stream : Settings → String → Result Exn StreamSettings
build_stream s consumer = elim (s.event_bus_backend) [
  | EventBusBackend.memory ↦ err no_stream
  | EventBusBackend.redis ↦ ok (stream_settings s consumer)
]

-- `_run`, around a `run_forever` that ends somehow.
unfoldable pub run_worker : Settings → String → Weather → Ending → Run
unfolding build_stream
run_worker s consumer w ending = elim (build_stream s consumer) [
  | err e ↦ ([], raised e)
  | ok _ ↦
      acquire w event_stream
        (acquire w database (then_ serving (close w event_stream (close w database ([], ending)))))
]

-- The redactor of `lifespan`, and `get_chat_service`.
abbrev pub redactor_of : Unicode → Settings → Redactor
redactor_of u s = record {
  max_chars = s.preview_max_chars;
  enabled = s.redaction_enabled;
  rules = default_rules u;
}

abbrev pub turn_settings : Settings → TurnSettings
turn_settings s = record {
  max_output_tokens = s.max_output_tokens;
  max_history_messages = s.max_history_messages;
  max_history_chars = s.max_history_chars;
}

abbrev pub chat_service : Unicode → Settings → Registry → ChatService
chat_service u s r = record { registry = r; settings = turn_settings s; redactor = redactor_of u s }
