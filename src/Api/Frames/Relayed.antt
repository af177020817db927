-- ===== src/Api/Frames/Relayed.antt =====
-- The frames of a turn on their way through the queue of backend/app/api/sse.py to a client.
use llm_inference_logger.Prelude.{
  ◌≡◌, refl, sym, ap, ◌∙◌, inl, inr, true, false, not, ◌&&◌, none, List, [], ◌∷◌, ◌++◌, map, arith,
  Text, codes, join, ◌==◌, if◌then◌else◌, Bool-cases, All,
}
use llm_inference_logger.Domain.Json.{Json}
use llm_inference_logger.Api.Frames.{frames, frame_event, to_sse, frame_data}
use llm_inference_logger.Chat.Turn.{ChatStreamEvent}
use llm_inference_logger.Api.Sse.{Relay, Reach, open_relay}
use llm_inference_logger.Api.Frames.RoundTrip.{read_events, lines, read_events-frames}
use llm_inference_logger.Api.Sse.Order.{IsSound, waiting, Reach-IsSound}

-- A list that is mapped comes apart where its image does.
map-split :
    {A B : Type 0} (f : A → B) (xs ys : List B) (zs : List A)
    → xs ++ ys ≡ map f zs
    → (as_ : List A) × (bs : List A) × (zs ≡ as_ ++ bs) × (xs ≡ map f as_) × (ys ≡ map f bs)
map-split f [] ys zs e = ([], zs, refl, refl, e)
map-split f (x ∷ xs) ys [] e = absurd (ground (arith, e))
map-split f (x ∷ xs) ys (z ∷ zs) e =
    let (as_, bs, cut, left, right) = map-split f xs ys zs (cc (e)) in
    (z ∷ as_, bs, ap (◌∷◌ z) cut, cc (e, left), right)

map-none : {A B : Type 0} (f : A → B) (xs : List A) → map f xs ≡ [] → xs ≡ []
map-none f [] e = refl
map-none f (x ∷ xs) e = absurd (ground (arith, e))

-- What a response that nothing cancelled has ended with is nothing.
unsent :
    {F : Type 0} (fs : List F) (s : Relay F)
    → IsSound fs s
    → s.closed ≡ true
    → s.cancelled ≡ false
    → waiting s.queue ++ s.source ≡ []
unsent fs s h closed calm =
    let ended = h.after_close closed in cc (ap waiting ended.1, h.exhausted ended.0 calm)

module _ (dumps : Json → Text) (flat : (j : Json) → All (λ c. (c == 10) ≡ false) (dumps j)) where
  -- What a client has made of a response so far: `got` of the events, with `lost` behind them.
  pub record HasRead (events : List ChatStreamEvent) (s : Relay Text)
      (got lost : List ChatStreamEvent) : Type 0 where
    parts : events ≡ got ++ lost
    read :
        read_events ([], none) (lines (join s.sent))
        ≡ map (λ e. (codes (frame_event e), dumps (frame_data e))) got
    rest : lost ≡ (if s.closed && not s.cancelled then [] else lost)

  -- Whatever order the two tasks and the watcher run in, a client that reads the response so far
  -- gets, under their names and with their data, the first events of the turn, each once and in
  -- order. It gets all of them from a response that has ended although nothing cancelled the
  -- producer. The JSON text has no line break in it.
  pub relayed-HasRead :
      (events : List ChatStreamEvent) (s : Relay Text)
      → Reach (open_relay (map (to_sse dumps) events)) s
      → (got : List ChatStreamEvent) × (lost : List ChatStreamEvent) × HasRead events s got lost
  unfolding frames
  relayed-HasRead events s reached =
      let h = Reach-IsSound reached in
      let (got, lost, cut, sent, left) =
        map-split (to_sse dumps) s.sent (waiting s.queue ++ s.source) events h.in_order in
      (
        got,
        lost,
        record {
          parts = cut;
          read =
              ap (λ fs. read_events ([], none) (lines (join fs))) sent
              ∙ read_events-frames dumps flat got;
          rest = elim (Bool-cases (s.closed && not s.cancelled)) [
            | inl e ↦ simp e (
                map-none (to_sse dumps) lost (
                  sym left
                  ∙ unsent (map (to_sse dumps) events) s h (ground (arith, e)) (ground (arith, e))))
            | inr e ↦ simp e refl
          ];
        },
      )
