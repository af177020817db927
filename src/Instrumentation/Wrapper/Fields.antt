-- ===== src/Instrumentation/Wrapper/Fields.antt =====
-- What the wrapper measures over a stream: the first token, the usage, the text and the reason.
use llm_inference_logger.Prelude.{
  ℕ, ◌≡◌, refl, sym, ap, ◌∙◌, Option, none, some, List, [], ◌∷◌, ◌++◌, map, append-nil,
  append_assoc, arith, join, if◌then◌else◌, ℤ,
}
use llm_inference_logger.Instrumentation.Wrapper.{
  Arrival, build_event, observe_all, Wrapped, Tally, is_empty, elapsed_ms, observe, Call,
  last_user_text, new_tally,
}
use llm_inference_logger.Providers.Base.{latest, ChatRequest}
use llm_inference_logger.Instrumentation.Redaction.{preview}

-- The last value that is not null, the specification of what is merged.
abbrev pub last_some {ℓ} : {A : Type ℓ} → List (Option A) → Option A
last_some [] = none
last_some (x ∷ xs) = latest (last_some xs) x

-- The input half, and the output half, of a chunk's usage.
abbrev pub input_of : Arrival → Option ℤ
input_of a = elim a.chunk.usage [ none ↦ none | some u ↦ u.input_tokens ]

abbrev pub output_of : Arrival → Option ℤ
output_of a = elim a.chunk.usage [ none ↦ none | some u ↦ u.output_tokens ]

latest-none {ℓ} : {A : Type ℓ} (x : Option A) → latest x none ≡ x
latest-none none = refl
latest-none (some a) = refl

usage-observe_all :
    (start : ℕ) (t : Tally) (as_ : List Arrival)
    → ((observe_all start t as_).usage.input_tokens
        ≡ latest (last_some (map input_of as_)) t.usage.input_tokens)
      × ((observe_all start t as_).usage.output_tokens
          ≡ latest (last_some (map output_of as_)) t.usage.output_tokens)
unfolding observe_all
usage-observe_all start t [] = (refl, refl)
usage-observe_all start t (a ∷ as_) =
    ground (arith, usage-observe_all start (observe start t a) as_)

-- The time to the first chunk that has text.
abbrev pub first_text : ℕ → List Arrival → Option ℤ
first_text start [] = none
first_text start (a ∷ as_) =
    if is_empty a.chunk.delta_text then first_text start as_ else some (elapsed_ms start a.clock)

ttft-observe_all :
    (start : ℕ) (t : Tally) (as_ : List Arrival)
    → (observe_all start t as_).ttft_ms ≡ latest t.ttft_ms (first_text start as_)
unfolding observe_all
ttft-observe_all start t [] = ground arith
ttft-observe_all start t (a ∷ as_) = ground (arith, ttft-observe_all start (observe start t a) as_)

chunks-observe_all :
    (start : ℕ) (t : Tally) (as_ : List Arrival)
    → (observe_all start t as_).chunks ≡ t.chunks ++ map (λ a. a.chunk.delta_text) as_
unfolding observe_all
chunks-observe_all start t [] = sym (append-nil t.chunks)
chunks-observe_all start t (a ∷ as_) =
    chunks-observe_all start (observe start t a) as_
    ∙ append_assoc t.chunks (a.chunk.delta_text ∷ []) (map (λ b. b.chunk.delta_text) as_)

-- What the event of a call says: the times of the call, the first chunk with text, for each half of
-- the usage the last value reported, and the redacted previews of the newest user turn and of all
-- the text that came, however the call ended.
pub event-measures :
    (w : Wrapped) (request : ChatRequest) (c : Call)
    → let e = build_event w request c in
      (e.id ≡ c.event_id)
      × (e.latency_ms ≡ some (elapsed_ms c.start c.stop))
      × (e.ttft_ms ≡ first_text c.start c.arrivals)
      × (e.input_tokens ≡ last_some (map input_of c.arrivals))
      × (e.output_tokens ≡ last_some (map output_of c.arrivals))
      × (e.input_preview ≡ preview w.redactor (last_user_text request))
      × (e.output_preview
          ≡ preview w.redactor (some (join (map (λ a. a.chunk.delta_text) c.arrivals))))
unfolding build_event
event-measures w request c = (
  refl,
  refl,
  ttft-observe_all c.start new_tally c.arrivals,
  (usage-observe_all c.start new_tally c.arrivals).0 ∙ latest-none _,
  (usage-observe_all c.start new_tally c.arrivals).1 ∙ latest-none _,
  refl,
  ap (λ ts. preview w.redactor (some (join ts))) (chunks-observe_all c.start new_tally c.arrivals),
)
