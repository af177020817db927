-- ===== src/Instrumentation/InFlight/Tests.antt =====
-- A disconnect that cancels twice, and a shutdown that is too short for a publish.
use llm_inference_logger.Prelude.{◌≡◌, refl, true, false, List, [], ◌∷◌, ◌++◌, map, All}
use llm_inference_logger.Instrumentation.InFlight.{
  take_steps, drain_pending_publishes, LoopStep, resume, start, Publish, published, cancel,
  cancelled, running, end, discard,
}
use llm_inference_logger.Instrumentation.InFlight.Kept.{
  Kept, fate, undisturbed, take_steps-undisturbed,
}
use llm_inference_logger.Instrumentation.InFlight.Drain.{Settled, drain_pending_publishes-Settled}

-- Two calls; the caller of the first is cancelled twice, and its publish is taken all the same.
abbrev cancelled_twice : List LoopStep
cancelled_twice = start 1 ∷ cancel 1 ∷ start 2 ∷ cancel 1 ∷ end 1 true ∷ discard 1 ∷ []

take_steps-undisturbed_example :
    (map (λ t. t.event) (take_steps cancelled_twice []) ≡ 1 ∷ 2 ∷ [])
    × All Kept (take_steps cancelled_twice [])
    × (map fate (take_steps cancelled_twice [])
        ≡ map fate (take_steps (undisturbed cancelled_twice) []))
take_steps-undisturbed_example = take_steps-undisturbed cancelled_twice

what_came_of_them :
    map fate (take_steps cancelled_twice []) ≡ (1, published, false) ∷ (2, running, true) ∷ []
unfolding take_steps
what_came_of_them = refl

-- The second publish does not end within the grace period.
abbrev at_shutdown : List Publish
unfolding take_steps
at_shutdown = take_steps cancelled_twice []

drain_pending_publishes-Settled_example :
    ((drain_pending_publishes (resume 2 ∷ []) at_shutdown).0 ≡ 0)
    × ((old : List Publish) × (new : List Publish) × ((drain_pending_publishes
            (resume 2 ∷ [])
            at_shutdown).1
          ≡ old ++ new)
        × (map (λ t. t.event) old ≡ map (λ t. t.event) at_shutdown)
        × Settled old)
unfolding at_shutdown
drain_pending_publishes-Settled_example =
    drain_pending_publishes-Settled (resume 2 ∷ []) (take_steps cancelled_twice [])
      (take_steps-undisturbed cancelled_twice).1

-- It is cancelled, and not counted.
lost_and_not_counted :
    ((drain_pending_publishes (resume 2 ∷ []) at_shutdown).0 ≡ 0)
    × (map (λ t. t.progress) (drain_pending_publishes (resume 2 ∷ []) at_shutdown).1
        ≡ published ∷ cancelled ∷ [])
unfolding drain_pending_publishes at_shutdown
lost_and_not_counted = (refl, refl)
