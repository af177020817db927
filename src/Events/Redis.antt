-- ===== src/Events/Redis.antt =====
-- backend/app/events/redis_bus.py: the transport over Redis Streams. The client library, the JSON
-- codec and `asyncio.timeout` are parameters.
pub mod Laws
pub mod Poll
pub mod Once
pub mod Tests
use llm_inference_logger.Prelude.{
  ℕ, String, Bool, true, false, ◌&&◌, ◌||◌, Option, none, some, List, [], ◌∷◌, ◌++◌, str_eq, Text,
  codes, ◌==◌, if◌then◌else◌,
}
use llm_inference_logger.Prelude.Outcome.{Result, ok, err, Exec, pure, ◌>>=◌, ◌>>◌}
use llm_inference_logger.Core.Errors.{Exn, other, app}
use llm_inference_logger.Domain.Event.{InferenceEvent}
use llm_inference_logger.Events.Stream.{EventStream, DeliveredEvent}

-- The flat string map of a stream entry.
abbrev pub EntryFields : Type 0
EntryFields = List (String × String)

-- `fields.get(key)`
abbrev pub get_field : String → EntryFields → Option String
get_field key [] = none
get_field key ((k, v) ∷ fs) = let rest = get_field key fs in if str_eq k key then some v else rest

-- The calls of redis-py's client that the module makes. A reply of `xreadgroup` has the entries of
-- each stream; one that is None or empty is the empty list. An observer of the broker sees which
-- entries the group has acknowledged, and what was added to a stream, whether or not it has been
-- trimmed since, the newest first.
pub record Client : Type 1 where
  pub State : Type 0
  -- stream, fields, `maxlen`
  pub xadd : String → EntryFields → ℕ → Exec State Exn String
  -- group, consumer, stream and the id that it is read from, `count`
  pub xreadgroup :
      String
      → String
      → String
      → String
      → ℕ
      → Exec State Exn (List (String × List (String × EntryFields)))
  -- stream, group, delivery id
  pub xack : String → String → String → Exec State Exn ℕ
  -- stream, group
  pub xgroup_create : String → String → Exec State Exn (Unit {0})
  -- `asyncio.timeout` around a call
  pub within : {A : Type 0} → ℕ → Exec State Exn A → Exec State Exn A
  -- Whether a class of exceptions, by its name, is RedisError or ResponseError or derives from it.
  pub is_redis_error : String → Bool
  pub is_response_error : String → Bool
  -- stream and group
  pub acked : String → String → State → List String
  -- stream
  pub added : String → State → List EntryFields

-- `json` and `model_dump_json`: `loads` is none on a JSONDecodeError, and `raw` makes the payload
-- `{"raw": str(fields)}`. `P` is what `loads` gives, an object or any other value of JSON.
pub record JsonCodec (P : Type 0) : Type 0 where
  pub loads : String → Option P
  pub dumps : P → String
  pub model_dump_json : InferenceEvent → String
  pub raw : EntryFields → P

pub record StreamSettings : Type 0 where
  pub event_stream_name : String
  pub event_stream_dlq : String
  pub event_consumer_group : String
  pub event_stream_maxlen : ℕ
  pub event_publish_timeout : ℕ
  pub consumer : String

-- `_FIELD`
abbrev pub field_name : String
field_name = "data"

-- The id of a read that asks for entries that no consumer of the group has been handed.
abbrev pub new_entries : String
new_entries = ">"

abbrev pub is_prefix : Text → Text → Bool
is_prefix [] t = true
is_prefix (c ∷ p) [] = false
is_prefix (c ∷ p) (d ∷ t) = (c == d) && is_prefix p t

-- `part in text`
abbrev pub contains : Text → Text → Bool
contains part [] = is_prefix part []
contains part (c ∷ t) = is_prefix part (c ∷ t) || contains part t

module _ {P : Type 0} (C : Client) (J : JsonCodec P) (S : StreamSettings) where
  -- `except (TimeoutError, redis.RedisError)`
  abbrev pub is_transport_error : Exn → Bool
  is_transport_error (other name message) = str_eq name "TimeoutError" || C.is_redis_error name
  is_transport_error (app e) = false
  is_transport_error Exn.cancelled = false
  is_transport_error Exn.generator_exit = false

  -- `except ResponseError`, with a test for a word of its message.
  abbrev pub is_response_with : String → Exn → Bool
  is_response_with word (other name message) =
      C.is_response_error name && contains (codes word) (codes message)
  is_response_with word (app e) = false
  is_response_with word Exn.cancelled = false
  is_response_with word Exn.generator_exit = false

  abbrev pub publish_outcome : Result Exn String × C.State → Result Exn Bool × C.State
  publish_outcome (ok id, s) = (ok true, s)
  publish_outcome (err x, s) = if is_transport_error x then (ok false, s) else (err x, s)

  -- `RedisEventBus.publish`
  unfoldable pub publish : InferenceEvent → Exec C.State Exn Bool
  publish e s = publish_outcome (
      C.within S.event_publish_timeout
        (C.xadd S.event_stream_name ((field_name, J.model_dump_json e) ∷ []) S.event_stream_maxlen)
        s)

  abbrev pub group_outcome : Result Exn (Unit {0}) × C.State → Result Exn (Unit {0}) × C.State
  group_outcome (ok u, s) = (ok tt, s)
  group_outcome (err x, s) = if is_response_with "BUSYGROUP" x then (ok tt, s) else (err x, s)

  -- `ensure_group`
  unfoldable pub ensure_group : Exec C.State Exn (Unit {0})
  ensure_group s = group_outcome (C.xgroup_create S.event_stream_name S.event_consumer_group s)

  -- `_decode`
  abbrev pub decode : EntryFields → Option P
  decode fields = elim (get_field field_name fields) [ none ↦ none | some raw ↦ J.loads raw ]

  -- `ack`
  unfoldable pub ack : String → Exec C.State Exn (Unit {0})
  ack d = C.xack S.event_stream_name S.event_consumer_group d >>= λ n. pure tt

  -- `dead_letter`
  unfoldable pub dead_letter : P → String → Exec C.State Exn (Unit {0})
  dead_letter p why =
      C.xadd S.event_stream_dlq ((field_name, J.dumps p) ∷ ("reason", why) ∷ []) 10000 >>= λ id.
      pure tt

  -- The loop of `poll` over the entries of the reply.
  unfoldable pub deliver : List (String × EntryFields) → Exec C.State Exn (List (DeliveredEvent P))
  deliver [] = pure []
  deliver ((d, fields) ∷ entries) = elim (decode fields) [
    | none ↦ dead_letter (J.raw fields) "malformed_json" >> ack d >> deliver entries
    | some p ↦ deliver entries >>= λ ds. pure (record { delivery_id = d; payload = p } ∷ ds)
  ]

  -- The entries of all the streams of a reply.
  abbrev pub reply_entries :
      List (String × List (String × EntryFields)) → List (String × EntryFields)
  reply_entries [] = []
  reply_entries ((stream, entries) ∷ rest) = entries ++ reply_entries rest

  abbrev pub poll_outcome :
      Result Exn (List (String × List (String × EntryFields))) × C.State
      → Result Exn (List (DeliveredEvent P)) × C.State
  poll_outcome (ok reply, s) = deliver (reply_entries reply) s
  poll_outcome (err x, s) =
      if is_response_with "NOGROUP" x then (ensure_group >> pure []) s else (err x, s)

  -- `poll`
  unfoldable pub poll : ℕ → Exec C.State Exn (List (DeliveredEvent P))
  poll n s =
      poll_outcome
        (C.xreadgroup S.event_consumer_group S.consumer S.event_stream_name new_entries n s)

  -- A payload in the dead-letter queue, with the reason.
  abbrev pub dead_entry : EntryFields → Option (P × String)
  dead_entry fields = elim (decode fields) [
    | none ↦ none
    | some p ↦ elim (get_field "reason" fields) [ none ↦ none | some why ↦ some (p, why) ]
  ]

  abbrev pub dead_entries : List EntryFields → List (P × String)
  dead_entries [] = []
  dead_entries (f ∷ fs) =
      let rest = dead_entries fs in elim (dead_entry f) [ none ↦ rest | some d ↦ d ∷ rest ]

  -- The deliveries that the group has acknowledged, and what has been diverted.
  abbrev pub observed : C.State → List String
  observed s = C.acked S.event_stream_name S.event_consumer_group s

  abbrev pub buried : C.State → List (P × String)
  buried s = dead_entries (C.added S.event_stream_dlq s)

  -- `RedisEventStream` as the stream that the worker takes.
  unfoldable pub redis_stream : EventStream P
  redis_stream = record {
    State = C.State;
    poll = poll;
    ack = ack;
    dead_letter = dead_letter;
    acked = observed;
    dead = buried;
  }
