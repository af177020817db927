-- ===== src/Api/Frames/RoundTrip.antt =====
-- A client that reads server-sent events line by line gets the events of a turn back.
use llm_inference_logger.Prelude.{
  ℕ, String, ◌≡◌, refl, ap, ◌∙◌, false, Option, none, some, List, [], ◌∷◌, ◌++◌, map, append_assoc,
  Text, codes, join, ◌==◌, if◌then◌else◌, All,
}
use llm_inference_logger.Domain.Json.{Json}
use llm_inference_logger.Prelude.Outcome.{Result, ok, err}
use llm_inference_logger.Core.Errors.{Exn}
use llm_inference_logger.Chat.Turn.{
  ChatService, Ask, Surroundings, Site, prepare, stream, ChatStreamEvent, started, first_token,
  delta, completed, failed,
}
use llm_inference_logger.Api.Frames.{
  frame_event, frame_data, format_sse, to_sse, frames, chat_stream, reply_frames,
}

-- The lines of a body; what stands behind the last line break is a line only if it is not empty.
abbrev pub push : ℕ → List Text → List Text
push c [] = (c ∷ []) ∷ []
push c (l ∷ ls) = (c ∷ l) ∷ ls

unfoldable pub lines : Text → List Text
lines [] = []
lines (c ∷ t) = let rest = lines t in if c == 10 then [] ∷ rest else push c rest

-- What stands behind a prefix.
abbrev pub after_prefix : Text → Text → Option Text
after_prefix [] t = some t
after_prefix (c ∷ p) [] = none
after_prefix (c ∷ p) (d ∷ t) = if c == d then after_prefix p t else none

-- A line that is not empty, read into the event type and the data so far.
abbrev pub read_line : Text → Text × Option Text → Text × Option Text
read_line l (event, payload) = elim (after_prefix (codes "event: ") l) [
  | some t ↦ (t, payload)
  | none ↦ elim (after_prefix (codes "data: ") l) [
    | some t ↦ (event, some t)
    | none ↦ (event, payload)
  ]
]

-- An empty line ends an event; one without data is dropped.
unfoldable pub read_events : Text × Option Text → List Text → List (Text × Text)
read_events now [] = []
read_events (event, payload) ([] ∷ ls) =
    let rest = read_events ([], none) ls in
    elim payload [ none ↦ rest | some d ↦ (event, d) ∷ rest ]
read_events now ((c ∷ l) ∷ ls) = read_events (read_line (c ∷ l) now) ls

abbrev NoBreak : Text → Type 0
NoBreak t = All (λ c. (c == 10) ≡ false) t

lines-line : (l rest : Text) → NoBreak l → lines (l ++ 10 ∷ rest) ≡ l ∷ lines rest
unfolding lines
lines-line [] rest h = refl
lines-line (c ∷ l) rest h =
    ap (λ b. if b then [] ∷ lines (l ++ 10 ∷ rest) else push c (lines (l ++ 10 ∷ rest))) h.0
    ∙ ap (push c) (lines-line l rest h.1)

event-NoBreak : (t : Text) → NoBreak t → NoBreak (codes "event: " ++ t)
event-NoBreak t h = (refl, (refl, (refl, (refl, (refl, (refl, (refl, h)))))))

data-NoBreak : (t : Text) → NoBreak t → NoBreak (codes "data: " ++ t)
data-NoBreak t h = (refl, (refl, (refl, (refl, (refl, (refl, h))))))

frame_event-NoBreak : (e : ChatStreamEvent) → NoBreak (codes (frame_event e))
frame_event-NoBreak (started i provider model) = (refl, (refl, (refl, (refl, (refl, tt)))))
frame_event-NoBreak (first_token ms) = (refl, (refl, (refl, (refl, tt))))
frame_event-NoBreak (delta text) = (refl, (refl, (refl, (refl, (refl, tt)))))
frame_event-NoBreak (completed i ms) = (refl, (refl, (refl, (refl, tt))))
frame_event-NoBreak (failed code message) = (refl, (refl, (refl, (refl, (refl, tt)))))

module _ (dumps : Json → Text) (flat : (j : Json) → All (λ c. (c == 10) ≡ false) (dumps j)) where
  lines-to_sse :
      (e : ChatStreamEvent) (rest : Text)
      → lines (to_sse dumps e ++ rest)
        ≡ (codes "event: " ++ codes (frame_event e))
          ∷ (codes "data: " ++ dumps (frame_data e))
          ∷ []
          ∷ lines rest
  unfolding to_sse format_sse lines
  lines-to_sse e rest =
      let d = dumps (frame_data e) in
      let name = codes (frame_event e) in
      ap (λ t. lines (codes "event: " ++ t))
        (append_assoc name (10 ∷ (codes "data: " ++ (d ++ 10 ∷ 10 ∷ []))) rest)
      ∙ ap (λ t. lines (codes "event: " ++ (name ++ 10 ∷ (codes "data: " ++ t))))
          (append_assoc d (10 ∷ 10 ∷ []) rest)
      ∙ lines-line (codes "event: " ++ name) (codes "data: " ++ (d ++ 10 ∷ 10 ∷ rest))
          (event-NoBreak name (frame_event-NoBreak e))
      ∙ ap (λ ls. (codes "event: " ++ name) ∷ ls)
          (lines-line (codes "data: " ++ d) (10 ∷ rest) (data-NoBreak d (flat (frame_data e))))

  pub read_events-frames :
      (es : List ChatStreamEvent)
      → read_events ([], none) (lines (frames dumps es))
        ≡ map (λ e. (codes (frame_event e), dumps (frame_data e))) es
  unfolding frames read_events lines
  read_events-frames [] = refl
  read_events-frames (e ∷ es) =
      ap (read_events ([], none)) (lines-to_sse e (join (map (to_sse dumps) es)))
      ∙ ap (λ r. (codes (frame_event e), dumps (frame_data e)) ∷ r) (read_events-frames es)

  module _ {P : Type 0} (service : ChatService) (ask : Ask) (s : Surroundings) where
    -- What a client makes of the answer to a streamed turn.
    abbrev pub ReadsBack : Site P → Result Exn Text → Type 0
    ReadsBack site (err e) = (prepare service ask s site).0 ≡ err e
    ReadsBack site (ok body) =
        read_events ([], none) (lines body)
        ≡ map (λ e. (codes (frame_event e), dumps (frame_data e)))
            (stream service ask s (prepare service ask s site).1).0.events

    -- A streamed turn is refused with what its preparation raised, and otherwise its body is read
    -- back: a client that goes through the lines gets each event of the turn under its name with
    -- its data, once and in order. The JSON text has no line break in it.
    pub chat_stream-ReadsBack :
        (site : Site P) → ReadsBack site (chat_stream dumps service ask s site).0
    unfolding chat_stream
    chat_stream-ReadsBack site = at (prepare service ask s site).0 refl
      where
        at :
            (r : Result Exn (String × String))
            → (prepare service ask s site).0 ≡ r
            → ReadsBack site
                (reply_frames dumps service ask s (r, (prepare service ask s site).1)).0
        at (err e) h = h
        at (ok named) h =
            read_events-frames (stream service ask s (prepare service ask s site).1).0.events
