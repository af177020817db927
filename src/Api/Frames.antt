-- ===== src/Api/Frames.antt =====
-- backend/app/api/chat.py and `format_sse` of backend/app/api/sse.py: the frames of a streamed turn.
pub mod RoundTrip
pub mod Relayed
mod Tests
use llm_inference_logger.Prelude.{String, List, [], ◌∷◌, ◌++◌, map, Text, codes, join, pos}
use llm_inference_logger.Domain.Json.{Json, Fields, lit, str, num, obj, field, end}
use llm_inference_logger.Domain.Uuid.{print_uuid}
use llm_inference_logger.Prelude.Outcome.{Result, ok, err}
use llm_inference_logger.Core.Errors.{Exn}
use llm_inference_logger.Chat.Turn.{
  ChatService, Ask, Surroundings, Site, Streamed, prepare, stream, ChatStreamEvent, started,
  first_token, delta, completed, failed,
}

-- The event type of a frame.
abbrev pub frame_event : ChatStreamEvent → String
frame_event (started i provider model) = "start"
frame_event (first_token ms) = "ttft"
frame_event (delta text) = "chunk"
frame_event (completed i ms) = "done"
frame_event (failed code message) = "error"

-- Its data.
abbrev pub frame_data : ChatStreamEvent → Json
frame_data (started i provider model) = obj (
    field "conversation_id" (str (print_uuid i))
      (field "provider" (lit provider) (field "model" (lit model) end)))
frame_data (first_token ms) = obj (field "ttft_ms" (num (pos ms)) end)
frame_data (delta text) = obj (field "text" (str text) end)
frame_data (completed i ms) =
    obj (field "message_id" (str (print_uuid i)) (field "latency_ms" (num (pos ms)) end))
frame_data (failed code message) = obj (field "code" (lit code) (field "message" (lit message) end))

-- `dumps` is `json.dumps`, without line breaks between its items.
module _ (dumps : Json → Text) where
  -- `format_sse`
  unfoldable pub format_sse : String → Json → Text
  format_sse event payload =
      codes "event: " ++ (codes event ++ 10 ∷ (codes "data: " ++ (dumps payload ++ 10 ∷ 10 ∷ [])))

  -- `_to_sse`
  unfoldable pub to_sse : ChatStreamEvent → Text
  to_sse e = format_sse (frame_event e) (frame_data e)

  -- `frames`, as they follow each other in the body of the response.
  unfoldable pub frames : List ChatStreamEvent → Text
  frames es = join (map to_sse es)

  module _ {P : Type 0} (service : ChatService) (ask : Ask) (s : Surroundings) where
    abbrev pub reply_frames : Result Exn (String × String) × Site P → Result Exn Text × Site P
    reply_frames (err e, site) = (err e, site)
    reply_frames (ok named, site) =
        let (streamed, after) = stream service ask s site in (ok (frames streamed.events), after)

    -- `chat_stream`: what `prepare` raises is raised, for the handlers of errors; after it the body
    -- has the frames of the turn.
    unfoldable pub chat_stream : Site P → Result Exn Text × Site P
    chat_stream site = reply_frames (prepare service ask s site)
