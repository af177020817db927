-- ===== src/Providers/Mock/Laws.antt =====
-- What each model of the mock provider does.
use llm_inference_logger.Prelude.{
  ℕ, zero, suc, ◌+◌, ◌/◌, ◌≤◌, ◌<◌, String, ◌≡◌, refl, sym, ap, ◌∙◌, subst, Bool, true, false, none,
  List, [], ◌∷◌, ◌++◌, map, arith, str_eq, str_eq_iff, Text, ◌==◌, if◌then◌else◌, length, take, All,
  length-map, length-take,
}
use llm_inference_logger.Core.Errors.{Exn}
use llm_inference_logger.Providers.Base.{ChatRequest, StreamChunk, ChunkStream, finished, raised}
use llm_inference_logger.Providers.Mock.{
  word_loop, word_chunk, mock_words, mock_stream, stream_forever, final_chunk, after_words,
  simulated_failure, error_model, endless_model, split, split_from, template,
}

word_loop-whole :
    (index third : ℕ) (ws : List Text) → word_loop false index third ws ≡ (map word_chunk ws, false)
unfolding word_loop
word_loop-whole index third [] = refl
word_loop-whole index third (w ∷ ws) =
    ap (λ (z : List StreamChunk × Bool). (word_chunk w ∷ z.0, z.1))
      (word_loop-whole (index + 1) third ws)

word_loop-cut :
    (n index : ℕ) (ws : List Text)
    → n < length ws
    → word_loop true index (index + n) ws ≡ (map word_chunk (take n ws), true)
unfolding word_loop
word_loop-cut n index [] h = absurd (omega arith)
word_loop-cut zero index (w ∷ ws) h =
    let now : (index == index + 0) ≡ true = ground arith in
    ap
      (λ b. if b then ([], true) else (
        word_chunk w ∷ (word_loop true (index + 1) (index + 0) ws).0,
        (word_loop true (index + 1) (index + 0) ws).1,
      ))
      now
word_loop-cut (suc n) index (w ∷ ws) h =
    let later : (index == index + suc n) ≡ false = ground arith in
    let third : index + suc n ≡ index + 1 + n = omega arith in
    let rest : word_loop true (index + 1) (index + suc n) ws ≡ (map word_chunk (take n ws), true) =
      ap (λ k. word_loop true (index + 1) k ws) third
      ∙ word_loop-cut n (index + 1) ws (omega (arith, h)) in
    ap
      (λ b. if b then ([], true) else (
        word_chunk w ∷ (word_loop true (index + 1) (index + suc n) ws).0,
        (word_loop true (index + 1) (index + suc n) ws).1,
      ))
      later
    ∙ ap (λ (z : List StreamChunk × Bool). (word_chunk w ∷ z.0, z.1)) rest

-- Three words are read before the topic comes.
three_words : (request : ChatRequest) → 3 ≤ length (mock_words request)
unfolding mock_words template split split_from
three_words request = omega arith

stream_forever-silent :
    (counter n : ℕ)
    → All (λ c. (c.usage ≡ none) × (c.finish_reason ≡ none)) (stream_forever counter n)
unfolding stream_forever
stream_forever-silent counter zero = tt
stream_forever-silent counter (suc n) = ((refl, refl), stream_forever-silent (counter + 1) n)

length-take_words :
    (ws : List Text) → 3 ≤ length ws → 1 ≤ length (map word_chunk (take (length ws / 3) ws))
length-take_words ws h =
    omega (arith, length-map word_chunk (take (length ws / 3) ws), length-take (length ws / 3) ws)

module _ (digest : Text → String) (taken : ℕ) (interruption : Exn) (request : ChatRequest) where
  abbrev reply : ChunkStream
  reply = mock_stream digest taken interruption request

  -- What each kind of model does.
  pub record Behaves : Type 0 where
    pub endless :
        str_eq request.model endless_model ≡ true
        → All (λ c. (c.usage ≡ none) × (c.finish_reason ≡ none)) reply.chunks
          × (reply.ending ≡ raised interruption)
    pub failing :
        str_eq request.model error_model ≡ true
        → (1 ≤ length reply.chunks)
          × (reply.chunks
              ≡ map word_chunk (take (length (mock_words request) / 3) (mock_words request)))
          × (reply.ending ≡ raised simulated_failure)
    pub ordinary :
        str_eq request.model endless_model ≡ false
        → str_eq request.model error_model ≡ false
        → (reply.chunks
            ≡ map word_chunk (mock_words request)
              ++ final_chunk digest taken interruption request ∷ [])
          × (reply.ending ≡ finished)

  -- The mock's stream by its model: `mock-cancel` reports no tokens and no reason and ends only by
  -- what interrupts it; `mock-error` yields the first third of its words, at least one, and then
  -- fails; every other model yields each word of the reply in order, then the reason and the tokens.
  pub mock_stream-Behaves : Behaves
  unfolding mock_stream
  mock_stream-Behaves =
      let ws = mock_words request in
      let third = length ws / 3 in
      record {
        endless = λ h. simp h (stream_forever-silent 0 taken, refl);
        failing = λ h.
            let no : str_eq request.model endless_model ≡ false =
              subst (λ m. str_eq m endless_model ≡ false)
                (sym ((str_eq_iff request.model error_model).0 h)) refl in
            let cut : word_loop true 0 third ws ≡ (map word_chunk (take third ws), true) =
              (let start : third ≡ 0 + third = omega arith in ap (λ k. word_loop true 0 k ws) start)
              ∙ word_loop-cut third 0 ws (omega (arith, three_words request)) in
            let s : reply ≡ record {
              chunks = map word_chunk (take third ws);
              ending = raised simulated_failure;
            } =
              ap
                (λ b.
                  if b
                  then record { chunks = stream_forever 0 taken; ending = raised interruption }
                  else after_words digest taken interruption request
                      (word_loop (str_eq request.model error_model) 0 third ws))
                no
              ∙ ap (λ b. after_words digest taken interruption request (word_loop b 0 third ws)) h
              ∙ ap (after_words digest taken interruption request) cut in
            (
              subst (λ cs. 1 ≤ length cs) (sym (ap (λ z. z.chunks) s))
                  (length-take_words ws (three_words request)),
              ap (λ z. z.chunks) s,
              ap (λ z. z.ending) s,
            );
        ordinary = λ h k.
            let s : reply ≡ record {
              chunks = map word_chunk ws ++ final_chunk digest taken interruption request ∷ [];
              ending = finished;
            } =
              ap
                (λ b.
                  if b
                  then record { chunks = stream_forever 0 taken; ending = raised interruption }
                  else after_words digest taken interruption request
                      (word_loop (str_eq request.model error_model) 0 third ws))
                h
              ∙ ap (λ b. after_words digest taken interruption request (word_loop b 0 third ws)) k
              ∙ ap (after_words digest taken interruption request) (word_loop-whole 0 third ws) in
            (ap (λ z. z.chunks) s, ap (λ z. z.ending) s);
      }
