-- ===== src/Api/Chat.antt =====
-- backend/app/api/chat.py: the route of the plain turn, and the limits of its request in
-- backend/app/api/schemas.py. A streamed turn has the same request.
pub mod Reply
pub mod Answers
mod Tests
use llm_inference_logger.Prelude.{ℕ, String, Bool, ◌&&◌, Option, Text, leb, length}
use llm_inference_logger.Chat.Turn.{ChatResult, Ask, ChatService, Surroundings, Turn, send}
use llm_inference_logger.Api.Conversations.{MessageRead, message_read}
use llm_inference_logger.Prelude.Outcome.{◌>>=◌, pure}

-- `MAX_MESSAGE_CHARS`
abbrev pub max_message_chars : ℕ
max_message_chars = 32000

-- `ChatRequestBody`
pub record ChatRequestBody : Type 0 where
  pub conversation_id : Option ℕ
  pub content : Text
  pub provider : Option String
  pub model : Option String

-- `Field(min_length=1, max_length=MAX_MESSAGE_CHARS)`: a body that fails it is answered with 422.
unfoldable pub accepts_body : ChatRequestBody → Bool
accepts_body body = leb 1 (length body.content) && leb (length body.content) max_message_chars

pub record ChatResponse : Type 0 where
  pub conversation_id : ℕ
  pub user_message : MessageRead
  pub assistant_message : MessageRead
  pub provider : String
  pub model : String

abbrev pub asked : ChatRequestBody → Ask
asked body = record {
  content = body.content;
  conversation_id = body.conversation_id;
  provider = body.provider;
  model = body.model;
}

abbrev pub response_of : ChatResult → ChatResponse
response_of r = record {
  conversation_id = r.conversation.id;
  user_message = message_read r.user_message;
  assistant_message = message_read r.assistant_message;
  provider = r.provider;
  model = r.model;
}

-- `chat`
unfoldable pub chat :
    {P : Type 0} → ChatService → ChatRequestBody → Surroundings → Turn P ChatResponse
chat service body s = send service (asked body) s >>= λ result. pure (response_of result)
