-- ===== src/Events/Memory.antt =====
-- `InMemoryEventBus` of backend/app/events/bus.py: both halves of the transport in one process.
use llm_inference_logger.Prelude.{
  ℕ, ◌+◌, String, Bool, true, List, [], ◌∷◌, ◌++◌, reverse, take, drop, decimal,
}
use llm_inference_logger.Prelude.Outcome.{Result, ok}
use llm_inference_logger.Core.Errors.{Exn}
use llm_inference_logger.Domain.Event.{InferenceEvent}
use llm_inference_logger.Events.Wire.{Wire}
use llm_inference_logger.Events.Stream.{EventStream, DeliveredEvent}

module _ (W : Wire) where
  pub record Memory : Type 0 where
    pub pending : List (DeliveredEvent W.Payload)
    pub counter : ℕ
    pub published : List InferenceEvent
    pub dead_lettered : List (W.Payload × String)

  -- `__init__`
  abbrev pub empty_bus : Memory
  empty_bus = record { pending = []; counter = 0; published = []; dead_lettered = [] }

  -- `publish`
  unfoldable pub publish : InferenceEvent → Memory → Bool × Memory
  publish e m = (
    true,
    record m {
      counter = m.counter + 1;
      published = m.published ++ e ∷ [];
      pending =
          m.pending ++ record { delivery_id = decimal (m.counter + 1); payload = W.dump e } ∷ [];
    },
  )

  unfoldable pub publish_all : List InferenceEvent → Memory → Memory
  publish_all [] m = m
  publish_all (e ∷ es) m = publish_all es (publish e m).1

  -- `poll`
  unfoldable pub poll : ℕ → Memory → Result Exn (List (DeliveredEvent W.Payload)) × Memory
  poll n m = (ok (take n m.pending), record m { pending = drop n m.pending })

  -- `ack` does nothing.
  abbrev pub ack : String → Memory → Result Exn (Unit {0}) × Memory
  ack d m = (ok tt, m)

  -- `dead_letter`
  unfoldable pub dead_letter : W.Payload → String → Memory → Result Exn (Unit {0}) × Memory
  dead_letter p why m = (ok tt, record m { dead_lettered = m.dead_lettered ++ (p, why) ∷ [] })

  -- The bus as the worker's stream. It keeps no record of what was acknowledged.
  abbrev pub memory_stream : EventStream W.Payload
  memory_stream = record {
    State = Memory;
    poll = poll;
    ack = ack;
    dead_letter = dead_letter;
    acked = λ _. [];
    dead = λ m. reverse m.dead_lettered;
  }
