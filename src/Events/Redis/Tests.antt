-- ===== src/Events/Redis/Tests.antt =====
-- A small broker and a small codec that meet the assumptions, and the theorems over them.
use llm_inference_logger.Events.Redis.Poll.{readable}
use llm_inference_logger.Events.Redis.Once.{IsQueue, poll_all, poll_all-Once}
use llm_inference_logger.Prelude.{
  String, refl, ap, inl, false, Option, none, some, List, [], ◌∷◌, str_eq, str_eq_iff,
  if◌then◌else◌, take, drop, pos, append-nil, ◌≡◌, ℕ, ◌++◌, Bool-cases, inr, keep, not,
}
use llm_inference_logger.Prelude.Outcome.{ok}
use llm_inference_logger.Domain.Enums.{InferenceStatus}
use llm_inference_logger.Domain.Event.{InferenceEvent}
use llm_inference_logger.Events.Stream
use llm_inference_logger.Events.Redis.{
  Client, JsonCodec, StreamSettings, EntryFields, ack, dead_letter, poll, redis_stream,
}
use llm_inference_logger.Events.Redis.Laws
use llm_inference_logger.Events.Redis.Laws.{redis_stream-IsLawful}
use llm_inference_logger.Events.Redis.Poll.{Delivers, poll-Delivers}

record Broker : Type 0 where
  waiting : List (String × EntryFields)
  pending : List (String × EntryFields)
  log : List (String × EntryFields)
  done : List String

abbrev of_stream : String → List (String × EntryFields) → List EntryFields
of_stream stream [] = []
of_stream stream ((t, f) ∷ es) =
    let rest = of_stream stream es in if str_eq t stream then f ∷ rest else rest

abbrev client : Client
client = record {
  State = Broker;
  xadd = λ stream f n b. (ok "1-0", record b { log = (stream, f) ∷ b.log });
  xreadgroup = λ group consumer stream id n b.
      if str_eq id ">"
      then (
        ok ((stream, take n b.waiting) ∷ []),
        record b { waiting = drop n b.waiting; pending = b.pending ++ take n b.waiting },
      )
      else (ok ((stream, take n b.pending) ∷ []), b);
  xack = λ stream group d b.
      (ok 1, record b { pending = keep (λ e. not (str_eq e.0 d)) b.pending; done = d ∷ b.done });
  xgroup_create = λ stream group b. (ok tt, b);
  within = λ t m. m;
  is_redis_error = λ name. str_eq name "ConnectionError";
  is_response_error = λ name. str_eq name "ResponseError";
  acked = λ stream group b. b.done;
  added = λ stream b. of_stream stream b.log;
}

-- The payloads are texts, marked by a letter in front.
abbrev unmark : String → Option String
unmark String.[] = none
unmark (String.◌∷◌ c s) = some s

abbrev codec : JsonCodec String
codec = record {
  loads = unmark;
  dumps = λ p. String.◌∷◌ "j" p;
  model_dump_json = λ e. String.◌∷◌ "j" e.provider;
  raw = λ f. "raw";
}

abbrev settings : StreamSettings
settings = record {
  event_stream_name = "events";
  event_stream_dlq = "dead";
  event_consumer_group = "workers";
  event_stream_maxlen = 100;
  event_publish_timeout = 2;
  consumer = "w";
}

codec-IsLawful : Laws.IsLawful client codec
codec-IsLawful = record {
  loads-dumps = λ p. refl;
  xack-ok = λ stream group d n s h. refl;
  xack-acked = λ stream group d s. inl refl;
  added-xack = λ stream group d other s. refl;
  xadd-ok = λ stream id f n s h.
      ap (λ b. if b then f ∷ of_stream stream s.log else of_stream stream s.log)
        ((str_eq_iff stream stream).1 refl);
  acked-xadd = λ stream f n other group s. refl;
  within-outcome = λ t m s. inl refl;
}

redis_stream-IsLawful_example : Stream.IsLawful (redis_stream client codec settings)
redis_stream-IsLawful_example = redis_stream-IsLawful client codec settings codec-IsLawful

abbrev broker : Broker
broker = record {
  waiting =
      ("7-0", ("data", "jone") ∷ [])
      ∷ ("8-0", ("other", "jtwo") ∷ [])
      ∷ ("9-0", ("data", "jthree") ∷ [])
      ∷ [];
  pending = ("6-0", ("data", "jzero") ∷ []) ∷ [];
  log = [];
  done = [];
}

abbrev entries : List (String × EntryFields)
entries = ("7-0", ("data", "jone") ∷ []) ∷ ("8-0", ("other", "jtwo") ∷ []) ∷ []

poll-Delivers_example :
    Delivers client codec settings entries
      (record broker {
        waiting = ("9-0", ("data", "jthree") ∷ []) ∷ [];
        pending = broker.pending ++ entries;
      })
      (poll client codec settings 2 broker)
unfolding ack dead_letter
poll-Delivers_example =
    poll-Delivers client codec settings codec-IsLawful (λ d s. refl) (λ p why s. refl) 2 broker
      (("events", entries) ∷ []) refl

abbrev event : InferenceEvent
event = record {
  schema_version = pos 1;
  event_type = "inference";
  id = 5;
  conversation_id = none;
  message_id = none;
  provider = "mock";
  model = "m";
  status = InferenceStatus.success;
  streamed = false;
  started_at = 1;
  completed_at = 2;
  latency_ms = none;
  ttft_ms = none;
  input_tokens = none;
  output_tokens = none;
  input_preview = none;
  output_preview = none;
  error_type = none;
  error_message = none;
  finish_reason = none;
  raw_metadata = none;
}

replayed : String → ℕ → Broker → List (String × EntryFields)
replayed id n b = take n b.pending

queue : IsQueue client codec settings (λ b. b.waiting) replayed
unfolding replayed
queue = record {
  read = λ id n b. elim (Bool-cases (str_eq id ">")) [
    | inl e ↦ (
      ("events", take n b.waiting) ∷ [],
      rw e refl,
      rw e (append-nil (take n b.waiting)),
      rw e refl,
    )
    | inr e ↦ (
      ("events", take n b.pending) ∷ [],
      rw e refl,
      rw e (append-nil (take n b.pending)),
      rw e refl,
    )
  ];
  acked = λ d b. refl;
  diverted = λ f n b. refl;
}

poll_all-Once_example :
    poll_all client codec settings (λ b. b) (2 ∷ 1 ∷ 1 ∷ []) broker
    ≡ readable client codec settings (take 4 broker.waiting)
unfolding ack dead_letter
poll_all-Once_example =
    poll_all-Once client codec settings codec-IsLawful (λ d s. refl) (λ p why s. refl)
      (λ b. b.waiting) replayed queue (λ b. b) (λ b. refl) (2 ∷ 1 ∷ 1 ∷ []) broker
