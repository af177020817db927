-- ===== src/Chat/Turn/Shown.antt =====
-- What the client of a streamed turn is shown.
use llm_inference_logger.Prelude.{
  ℕ, ◌≡◌, refl, ap, ◌∙◌, inl, inr, true, false, not, List, [], ◌∷◌, ◌++◌, map, Text, join,
  Bool-cases, keep,
}
use llm_inference_logger.Providers.Base.{StreamChunk}
use llm_inference_logger.Instrumentation.Wrapper.{is_empty}
use llm_inference_logger.Chat.Turn.{ChatStreamEvent, delta, first_token, forward, parts_of}

-- The texts that are not empty.
abbrev pub texts_of : List StreamChunk → List Text
texts_of cs = keep (λ t. not (is_empty t)) (map (λ c. c.delta_text) cs)

-- The announcement before the first of them.
abbrev pub announce : ℕ → List Text → List ChatStreamEvent
announce ttft [] = []
announce ttft (t ∷ ts) = first_token ttft ∷ map delta (t ∷ ts)

-- The text that an event adds to the reply on the screen.
abbrev pub shown : List ChatStreamEvent → Text
shown [] = []
shown (delta t ∷ es) = t ++ shown es
shown (_ ∷ es) = shown es

forward-seen : (k : ℕ) (cs : List StreamChunk) → forward true k cs ≡ map delta (texts_of cs)
unfolding forward
forward-seen k [] = refl
forward-seen k (c ∷ cs) = elim (Bool-cases (is_empty c.delta_text)) [
  | inl e ↦ simp e (forward-seen k cs)
  | inr e ↦ simp e (ap (◌∷◌ (delta c.delta_text)) (forward-seen k cs))
]

forward-announce : (k : ℕ) (cs : List StreamChunk) → forward false k cs ≡ announce k (texts_of cs)
unfolding forward
forward-announce k [] = refl
forward-announce k (c ∷ cs) = elim (Bool-cases (is_empty c.delta_text)) [
  | inl e ↦ simp e (forward-announce k cs)
  | inr e ↦ simp e (ap (λ es. first_token k ∷ delta c.delta_text ∷ es) (forward-seen k cs))
]

shown-deltas : (ts : List Text) → shown (map delta ts) ≡ join ts
shown-deltas [] = refl
shown-deltas (t ∷ ts) = ap (◌++◌ t) (shown-deltas ts)

shown-announce : (k : ℕ) (ts : List Text) → shown (announce k ts) ≡ join ts
shown-announce k [] = refl
shown-announce k (t ∷ ts) = shown-deltas (t ∷ ts)

-- The loop of a streamed turn yields the texts that are not empty in their order, announced once,
-- right before the first, and nothing where there is none. What the client is shown is the text
-- that the turn stores at its end.
pub forward-shown :
    (ttft : ℕ) (cs : List StreamChunk)
    → (forward false ttft cs ≡ announce ttft (texts_of cs))
      × (shown (forward false ttft cs) ≡ parts_of cs)
forward-shown k cs =
    (forward-announce k cs, ap shown (forward-announce k cs) ∙ shown-announce k (texts_of cs))
