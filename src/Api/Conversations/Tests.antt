-- ===== src/Api/Conversations/Tests.antt =====
-- A conversation with a message and a call, deleted.
use llm_inference_logger.Prelude.{ℕ, ◌≡◌, refl, none, some, [], ◌∷◌, map, codes}
use llm_inference_logger.Prelude.Outcome.{ok}
use llm_inference_logger.Domain.Enums.{ConversationStatus, MessageRole}
use llm_inference_logger.Db.Tables.{Db, InferenceLog, empty_db}
use llm_inference_logger.Db.Conversations.Seq.{calm}
use llm_inference_logger.Api.Logs.Tests.{calls}
use llm_inference_logger.Api.Conversations.{delete_conversation}
use llm_inference_logger.Api.Conversations.Laws.{IsForgotten, delete_conversation-IsForgotten}

abbrev linked : InferenceLog → InferenceLog
linked l = record l { conversation_id = some 1; message_id = some 2 }

abbrev talk : Db ℕ
talk = record (empty_db ℕ) {
  conversations =
      record {
        id = 1;
        title = none;
        status = ConversationStatus.active;
        created_at = 0;
        updated_at = 0;
      }
      ∷ [];
  messages =
      record {
        id = 2;
        conversation_id = 1;
        role = MessageRole.user;
        content = codes "hi";
        seq = 0;
        created_at = 0;
      }
      ∷ [];
  inference_logs = map linked calls;
}

delete_conversation-IsForgotten_example :
    let out = delete_conversation 7 1 (calm talk 5) in
    (out.0 ≡ ok 204) × IsForgotten 1 talk out.1.db
delete_conversation-IsForgotten_example =
    delete_conversation-IsForgotten 7 5 1 talk
      (record {
        id = 1;
        title = none;
        status = ConversationStatus.active;
        created_at = 0;
        updated_at = 0;
      })
      refl
