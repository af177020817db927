-- ===== src/Events/Stream.antt =====
-- backend/app/events/bus.py: the consumer's side of the transport, and what its documentation
-- promises.
use llm_inference_logger.Prelude.{ℕ, String, List, ◌∷◌, ◌≡◌, ◌⊎◌}
use llm_inference_logger.Prelude.Outcome.{Result, ok}
use llm_inference_logger.Core.Errors.{Exn}

pub record DeliveredEvent (P : Type 0) : Type 0 where
  pub delivery_id : String
  pub payload : P

-- `EventStream`: each method is an action on the state behind the interface.
pub record EventStream (P : Type 0) : Type 1 where
  pub State : Type 0
  -- `poll`, by `count`; how long it may block is not modelled
  pub poll : ℕ → State → Result Exn (List (DeliveredEvent P)) × State
  pub ack : String → State → Result Exn (Unit {0}) × State
  pub dead_letter : P → String → State → Result Exn (Unit {0}) × State
  -- What an observer of the broker sees: the acknowledged deliveries and the diverted payloads.
  pub acked : State → List String
  pub dead : State → List (P × String)

-- The contract of the two methods that the worker ends with: each adds its own entry and no
-- other, whether or not the caller is told.
pub record IsLawful {P : Type 0} (S : EventStream P) : Type 0 where
  pub ack-ok :
      (d : String) (s : S.State) → (S.ack d s).0 ≡ ok tt → S.acked (S.ack d s).1 ≡ d ∷ S.acked s
  pub ack-acked :
      (d : String) (s : S.State)
      → (S.acked (S.ack d s).1 ≡ d ∷ S.acked s) ⊎ (S.acked (S.ack d s).1 ≡ S.acked s)
  pub dead-ack : (d : String) (s : S.State) → S.dead (S.ack d s).1 ≡ S.dead s
  pub dead_letter-ok :
      (p : P) (why : String) (s : S.State)
      → (S.dead_letter p why s).0 ≡ ok tt
      → S.dead (S.dead_letter p why s).1 ≡ (p, why) ∷ S.dead s
  pub acked-dead_letter :
      (p : P) (why : String) (s : S.State) → S.acked (S.dead_letter p why s).1 ≡ S.acked s
