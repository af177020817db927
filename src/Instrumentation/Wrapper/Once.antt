-- ===== src/Instrumentation/Wrapper/Once.antt =====
-- One call, one event, and a call that its consumer cannot tell from the wrapped one.
use llm_inference_logger.Prelude.{
  ℕ, ◌≤◌, String, ◌≡◌, refl, ◌≢◌, inl, inr, true, false, ◌&&◌, none, some, List, [], ◌∷◌, map,
  arith, str_eq, str_eq_iff, len, if◌then◌else◌, Bool-cases, All, name_or, text_or, ◌∙◌,
}
use llm_inference_logger.Instrumentation.Wrapper.{
  Wrapped, verdict_of, Arrival, build_event, Tally, observe_all, Verdict, observe, Call, new_tally,
  stream_chat,
}
use llm_inference_logger.Providers.Base.{finished, Ending, ChatRequest, raised}
use llm_inference_logger.Core.Errors.{
  Exn, app, provider_error, other, internal_error, not_found, validation_error,
  provider_not_configured, model_not_supported,
}
use llm_inference_logger.Domain.Event.{is_valid, opt_nonneg, opt_at_most, is_blank}
use llm_inference_logger.Domain.Enums.{is_error}

-- An exception whose verdict the schema accepts: its class name fits the column, and a
-- ProviderError says something.
abbrev pub Describable : Exn → Type 0
Describable Exn.cancelled = Unit
Describable Exn.generator_exit = Unit
Describable (app (provider_error m p r none)) = m ≢ ""
Describable (app (provider_error m p r (some t))) = (m ≢ "") × (len t ≤ 128)
Describable (app _) = Unit
Describable (other kind text) = (kind ≢ "") × (len kind ≤ 128)

abbrev pub EndsWell : Ending → Type 0
EndsWell finished = Unit
EndsWell (raised e) = Describable e

-- A chunk that reports no negative count, and no overlong reason.
pub record FitsSchema (a : Arrival) : Type 0 where
  pub input : opt_nonneg (elim a.chunk.usage [ none ↦ none | some u ↦ u.input_tokens ]) ≡ true
  pub output : opt_nonneg (elim a.chunk.usage [ none ↦ none | some u ↦ u.output_tokens ]) ≡ true
  pub reason : opt_at_most 64 a.chunk.finish_reason ≡ true

-- What the schema asks of a call.
pub record Publishable (w : Wrapped) (request : ChatRequest) (c : Call) : Type 0 where
  pub named : (1 ≤ len w.inner_name) × (len w.inner_name ≤ 64)
  pub model : (1 ≤ len request.model) × (len request.model ≤ 128)
  pub forward : c.started_at ≤ c.completed_at
  pub ends_well : EndsWell c.ending
  pub arrivals : All FitsSchema c.arrivals

-- What the schema asks of the locals of the loop.
record Sound (t : Tally) : Type 0 where
  ttft : opt_nonneg t.ttft_ms ≡ true
  input : opt_nonneg t.usage.input_tokens ≡ true
  output : opt_nonneg t.usage.output_tokens ≡ true
  reason : opt_at_most 64 t.finish_reason ≡ true

observe-Sound :
    (start : ℕ) (t : Tally) (a : Arrival) → FitsSchema a → Sound t → Sound (observe start t a)
unfolding observe
observe-Sound start t a f s = ground arith

observe_all-Sound :
    (start : ℕ) (t : Tally) (as_ : List Arrival)
    → All FitsSchema as_
    → Sound t
    → Sound (observe_all start t as_)
unfolding observe_all
observe_all-Sound start t [] fs s = s
observe_all-Sound start t (a ∷ as_) (f, fs) s =
    observe_all-Sound start (observe start t a) as_ fs (observe-Sound start t a f s)

-- A verdict that the schema accepts.
record Stated (v : Verdict) : Type 0 where
  kind : opt_at_most 128 v.error_type ≡ true
  message : (is_error v.status && is_blank v.error_message) ≡ false

text_or-is_named : (a b : String) → str_eq b "" ≡ false → str_eq (text_or a b) "" ≡ false
text_or-is_named a b h = elim (Bool-cases (str_eq a "")) [
  | inl blank ↦ rw blank h
  | inr named ↦ rw named named
]

name_or-is_short :
    (t : String) → len t ≤ 128 → opt_at_most 128 (some (name_or (some t) "ProviderError")) ≡ true
name_or-is_short t h = elim (Bool-cases (str_eq t "")) [
  | inl blank ↦ rw blank
  | inr named ↦ rw named (ground arith)
]

verdict_of-Stated : (e : Ending) → EndsWell e → Stated (verdict_of e)
unfolding verdict_of
verdict_of-Stated finished h = record { kind = refl; message = refl }
verdict_of-Stated (raised Exn.cancelled) h = record { kind = refl; message = refl }
verdict_of-Stated (raised Exn.generator_exit) h = record { kind = refl; message = refl }
verdict_of-Stated (raised (app (provider_error m p r none))) h = ground (arith, str_eq_iff m "")
verdict_of-Stated (raised (app (provider_error m p r (some t)))) (said, short) = record {
  kind = name_or-is_short t short;
  message = ground (arith, str_eq_iff m "");
}
verdict_of-Stated (raised (app (internal_error m))) h = record {
  kind = refl;
  message = text_or-is_named m "AppError" refl;
}
verdict_of-Stated (raised (app (not_found m i))) h = record {
  kind = refl;
  message = text_or-is_named m "NotFoundError" refl;
}
verdict_of-Stated (raised (app (validation_error m))) h = record {
  kind = refl;
  message = text_or-is_named m "ValidationError" refl;
}
verdict_of-Stated (raised (app (provider_not_configured m r a))) h = record {
  kind = refl;
  message = text_or-is_named m "ProviderNotConfiguredError" refl;
}
verdict_of-Stated (raised (app (model_not_supported m p r a))) h = record {
  kind = refl;
  message = text_or-is_named m "ModelNotSupportedError" refl;
}
verdict_of-Stated (raised (other kind text)) (named, short) = record {
  kind = ground arith;
  message = text_or-is_named text kind (ground (arith, str_eq_iff kind ""));
}

pub build_event-is_valid :
    (w : Wrapped) (request : ChatRequest) (c : Call)
    → Publishable w request c
    → is_valid (build_event w request c) ≡ true
unfolding build_event is_valid
build_event-is_valid w request c p =
    let s =
      observe_all-Sound c.start new_tally c.arrivals p.arrivals
        (record { ttft = refl; input = refl; output = refl; reason = refl }) in
    let v = verdict_of-Stated c.ending p.ends_well in
    ground
      (arith, s.ttft, s.input, s.output, s.reason, v.kind, v.message, p.named, p.model, p.forward)

-- A call that the schema has room for publishes exactly one event, the one that describes it,
-- however it ended. Its consumer gets the chunks of the wrapped provider in their order, and the
-- call ends as the wrapped one did, or by the cancellation that met the publish.
pub one-event-per-call :
    (w : Wrapped) (request : ChatRequest) (c : Call)
    → Publishable w request c
    → let t = stream_chat w request c in
      (t.published ≡ build_event w request c ∷ [])
      × (t.yielded ≡ map (λ a. a.chunk) c.arrivals)
      × (t.ending ≡ (if c.cancelled_in_publish then raised Exn.cancelled else c.ending))
unfolding stream_chat
one-event-per-call w request c p =
    let valid = build_event-is_valid w request c p in (rw valid, refl, rw valid)

-- A call that the schema has room for, that ends in a way, and whose publish no cancellation meets.
pub record EndsAs (w : Wrapped) (request : ChatRequest) (c : Call) (ending : Ending) : Type 0 where
  pub publishable : Publishable w request c
  pub ended : c.ending ≡ ending
  pub undisturbed : c.cancelled_in_publish ≡ false

pub stream_chat-ending :
    (w : Wrapped) (request : ChatRequest) (c : Call) (ending : Ending)
    → EndsAs w request c ending
    → (stream_chat w request c).ending ≡ ending
stream_chat-ending w request c ending h =
    (one-event-per-call w request c h.publishable).2 ∙ rw h.undisturbed h.ended
