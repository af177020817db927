-- ===== src/Api/Conversations.antt =====
-- backend/app/api/conversations.py: the routes of conversations, each in its own unit of work.
pub mod Laws
mod Tests
use llm_inference_logger.Prelude.{ℕ, Option, none, List, map, Text}
use llm_inference_logger.Prelude.Outcome.{Result, ok, err, pure, ◌>>=◌, ◌>>◌}
use llm_inference_logger.Domain.Enums.{ConversationStatus, MessageRole}
use llm_inference_logger.Db.Tables.{Conversation, Message}
use llm_inference_logger.Db.Session.{Sql, session}
use llm_inference_logger.Db.Conversations.{
  create, require, list_recent, count_conversations, messages, delete,
}

pub record MessageRead : Type 0 where
  pub id : ℕ
  pub role : MessageRole
  pub content : Text
  pub seq : ℕ
  pub created_at : ℕ

pub record ConversationSummary : Type 0 where
  pub id : ℕ
  pub title : Option Text
  pub status : ConversationStatus
  pub created_at : ℕ
  pub updated_at : ℕ

pub record ConversationDetail : Type 0 where
  pub summary : ConversationSummary
  pub messages : List MessageRead

pub record ConversationList : Type 0 where
  pub items : List ConversationSummary
  pub total : ℕ

-- `MessageRead.model_validate(m)`
abbrev pub message_read : Message → MessageRead
message_read m = record {
  id = m.id;
  role = m.role;
  content = m.content;
  seq = m.seq;
  created_at = m.created_at;
}

-- `ConversationSummary.model_validate(c)`
abbrev pub conversation_summary : Conversation → ConversationSummary
conversation_summary c = record {
  id = c.id;
  title = c.title;
  status = c.status;
  created_at = c.created_at;
  updated_at = c.updated_at;
}

module _ {P : Type 0} (now : ℕ) where
  -- `create_conversation`, with the id that the database draws.
  unfoldable pub create_conversation : ℕ → Sql P ConversationSummary
  create_conversation i = session now (create i none >>= λ c. pure (conversation_summary c))

  -- `list_conversations`
  unfoldable pub list_conversations : ℕ → ℕ → Sql P ConversationList
  list_conversations limit offset = session now (
      list_recent limit offset >>= λ cs.
      count_conversations >>= λ n. pure (record { items = map conversation_summary cs; total = n }))

  -- `get_conversation`
  unfoldable pub get_conversation : ℕ → Sql P ConversationDetail
  get_conversation i = session now (
      require i >>= λ c. messages i >>= λ ms.
      pure (record { summary = conversation_summary c; messages = map message_read ms }))

  -- `delete_conversation`, which answers with the status 204.
  unfoldable pub delete_conversation : ℕ → Sql P ℕ
  delete_conversation i = session now (delete i >>= λ _. pure 204)
