-- ===== src/App/Shutdown.antt =====
-- What a process that got as far as serving closes, and which half reads what the other writes.
use llm_inference_logger.Prelude.{String, ◌≡◌, refl, ap, none, List, [], ◌∷◌, arith}
use llm_inference_logger.App.{
  serving, lifespan, Moment, Weather, Resource, drained, closed, event_bus, database, registry,
  redactor, build_stream, create_event_bus, over_redis, no_stream, stream_settings, Transport,
  in_memory,
}
use llm_inference_logger.Providers.Base.{Ending}
use llm_inference_logger.Core.Config.{Settings, EventBusBackend}
use llm_inference_logger.Events.Redis.{StreamSettings}
use llm_inference_logger.Prelude.Outcome.{ok, Result, err}
use llm_inference_logger.Core.Errors.{Exn}

-- The moments after the start of service.
abbrev after_serving : List Moment → List Moment
after_serving [] = []
after_serving (serving ∷ ms) = ms
after_serving (_ ∷ ms) = after_serving ms

-- A process whose resources open and close releases the database last, the bus before it, and drains
-- before both, however its body ended, and ends as the body did.
lifespan-releases :
    (w : Weather) (ending : Ending)
    → ((r : Resource) → w.opening r ≡ none)
    → ((r : Resource) → w.closing r ≡ none)
    → (after_serving (lifespan w ending).0 ≡ drained ∷ closed event_bus ∷ closed database ∷ [])
      × ((lifespan w ending).1 ≡ ending)
unfolding lifespan
lifespan-releases w ending h k =
    simp (h database, h registry, h event_bus, h redactor, k event_bus, k database) (refl, refl)

-- A worker that starts reads the stream that the API of the same settings publishes to, as a
-- consumer of the group that they name.
build_stream-agrees :
    (s : Settings) (consumer : String) (t : StreamSettings)
    → build_stream s consumer ≡ ok t
    → (b : StreamSettings) × (create_event_bus s ≡ over_redis b)
      × (b.event_stream_name ≡ t.event_stream_name)
unfolding build_stream create_event_bus
build_stream-agrees s consumer t h = at s.event_bus_backend h
  where
    at :
        (backend : EventBusBackend)
        → ◌≡◌ {A = Result Exn StreamSettings}
            (elim backend [
              | EventBusBackend.memory ↦ err no_stream
              | EventBusBackend.redis ↦ ok (stream_settings s consumer)
            ])
            (ok t)
        → (b : StreamSettings) × (◌≡◌ {A = Transport}
            (elim backend [
              | EventBusBackend.memory ↦ in_memory
              | EventBusBackend.redis ↦ over_redis (stream_settings s "")
            ])
            (over_redis b))
          × (b.event_stream_name ≡ t.event_stream_name)
    at EventBusBackend.memory h = absurd (ground (arith, h))
    at EventBusBackend.redis h =
        let same : stream_settings s consumer ≡ t = ground (arith, h) in
        (stream_settings s "", refl, ap (λ x. x.event_stream_name) same)
