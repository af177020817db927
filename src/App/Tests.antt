-- ===== src/App/Tests.antt =====
-- A start that fails half way, a close that raises, and a turn with the default settings.
use llm_inference_logger.Prelude.{
  ◌≡◌, refl, none, some, [], ◌∷◌, List, map, ap, false, codes, arith,
}
use llm_inference_logger.App.{
  run_worker, Weather, lifespan, acquired, database, registry, no_stream, event_bus, redactor,
  serving, drained,
}
use llm_inference_logger.Core.Config.{default_settings, memory}
use llm_inference_logger.Providers.Base.{finished, raised, StreamChunk, ChatRequest}
use llm_inference_logger.Core.Errors.{other}
use llm_inference_logger.Providers.Mock.{mock_provider}
use llm_inference_logger.Chat.Turn.{Surroundings}
use llm_inference_logger.Instrumentation.Wrapper.{Arrival}
use llm_inference_logger.Api.Chat.{ChatResponse, chat}
use llm_inference_logger.App.Mock.{service_of, plain_body, reply_of, mock-Answers}
use llm_inference_logger.Instrumentation.Redaction.Tests.{ascii}
use llm_inference_logger.Providers.Tests.{outside}
use llm_inference_logger.Db.Conversations.Seq.{calm}
use llm_inference_logger.Db.Tables.{empty_db}
use llm_inference_logger.Prelude.Outcome.{ok}

abbrev calm_weather : Weather
calm_weather = record { opening = λ _. none; closing = λ _. none }

abbrev no_bus : Weather
no_bus = record {
  opening = λ r. elim r [ event_bus ↦ some (other "RedisError" "bad url") | _ ↦ none ];
  closing = λ _. none;
}

-- The `try` begins after the last acquisition: what was opened before is not closed.
half_started :
    lifespan no_bus finished
    ≡ (acquired database ∷ acquired registry ∷ [], raised (other "RedisError" "bad url"))
unfolding lifespan
half_started = refl

abbrev stuck_bus : Weather
stuck_bus = record {
  opening = λ _. none;
  closing = λ r. elim r [ event_bus ↦ some (other "RedisError" "gone") | _ ↦ none ];
}

-- Nor is the database, where closing the bus raises.
half_closed : lifespan stuck_bus finished ≡ (
  acquired database
      ∷ acquired registry
      ∷ acquired event_bus
      ∷ acquired redactor
      ∷ serving
      ∷ drained
      ∷ [],
  raised (other "RedisError" "gone"),
)
unfolding lifespan
half_closed = refl

no_worker_in_memory :
    run_worker
      (record default_settings { event_bus_backend = memory })
      "host-1"
      calm_weather
      finished
    ≡ ([], raised no_stream)
unfolding run_worker
no_worker_in_memory = refl

-- Calls that take the stream of an adapter to its end.
abbrev arrive : StreamChunk → Arrival
arrive c = record { chunk = c; clock = 4000 }

abbrev faithful : Surroundings
faithful = record {
  new_conversation = 1;
  user_id = 2;
  assistant_id = 3;
  first_now = 10;
  second_now = 20;
  ttft_ms = 4;
  latency_ms = 9;
  call = λ p request. record {
    event_id = 7;
    started_at = 11;
    start = 0;
    arrivals = map arrive (p.stream_chat request).chunks;
    ending = (p.stream_chat request).ending;
    completed_at = 12;
    stop = 9000;
    cancelled_in_publish = false;
  };
}

arrive-chunk : (cs : List StreamChunk) → map (λ a. a.chunk) (map arrive cs) ≡ cs
arrive-chunk [] = refl
arrive-chunk (c ∷ cs) = ap (◌∷◌ c) (arrive-chunk cs)

mock-Answers_example :
    (r : ChatResponse) × (request : ChatRequest) × ((chat
        (service_of ascii outside default_settings)
        (plain_body (codes "hello") none)
        faithful
        (record { conn = calm (empty_db (Unit {0})) 0; published = [] })).0
      ≡ ok r)
    × (r.provider ≡ "mock")
    × (r.model ≡ "mock")
    × (r.user_message.content ≡ codes "hello")
    × (r.assistant_message.content ≡ reply_of request)
unfolding mock_provider
mock-Answers_example =
    mock-Answers ascii outside default_settings faithful (codes "hello") none (empty_db Unit) 0 []
      refl refl
      (record {
        numbered = λ i. tt;
        user = refl;
        assistant = refl;
        apart = λ e. absurd (omega (arith, e));
      })
      (λ request. record {
        chunks = arrive-chunk _;
        ending = refl;
        forward = omega arith;
        undisturbed = refl;
      })
