-- ===== src/Api/Chat/Tests.antt =====
-- A plain turn that starts a conversation, and the limits of its request.
use llm_inference_logger.Db.Conversations
use llm_inference_logger.Instrumentation.Wrapper.{
  stream_chat, build_event, verdict_of, observe_all, observe, merge_usage, last_user_text,
  first_user,
}
use llm_inference_logger.Prelude.{arith, String, ◌≡◌, refl, false, none, [], Text, codes}
use llm_inference_logger.Api.Chat.{chat, accepts_body, ChatRequestBody, ChatResponse}
use llm_inference_logger.Prelude.Outcome.{ok, err, Result}
use llm_inference_logger.Prelude.Outcome.Returns.{Returns}
use llm_inference_logger.Chat.Turn.{
  send, resolved, record_user_turn, complete_logged, record_assistant_turn,
}
use llm_inference_logger.Api.Chat.Reply.{IsAnswer, chat-IsAnswer}
use llm_inference_logger.Chat.Turn.Tests.{publishable, around, service, site, adapter}
use llm_inference_logger.Api.Chat.Answers.{chat-Answers}
use llm_inference_logger.Db.Tables.{empty_db}
use llm_inference_logger.Providers.Registry.{resolve_model, get}
use llm_inference_logger.Providers.Base.{finished, complete}
use llm_inference_logger.Db.Session.{session, statement}
use llm_inference_logger.Db.Conversations.{
  create, append_message, insert_message, ensure_title, messages, next_seq,
}
use llm_inference_logger.Domain.Event.{is_valid, check_invariants, fields_ok}
use llm_inference_logger.Instrumentation.Redaction.{preview, redact, clip}
use llm_inference_logger.Chat.Window.{recent_window, keep_within, last_messages}
use llm_inference_logger.Prelude.Order.{order_by, insert_sorted}
use llm_inference_logger.Core.Errors.{Exn}

abbrev body : String → ChatRequestBody
body text = record { conversation_id = none; content = codes text; provider = none; model = none }

chat-IsAnswer_example :
    Returns
      (IsAnswer service (body "hello") (around finished))
      (chat service (body "hello") (around finished) site)
chat-IsAnswer_example = chat-IsAnswer service (body "hello") (around finished) site

chat-Answers_example :
    (r : ChatResponse) × ((chat service (body "hello") (around finished) site).0 ≡ ok r)
    × IsAnswer service (body "hello") (around finished) r
    × (r.provider ≡ "mock")
    × (r.model ≡ "mock")
unfolding resolve_model get
chat-Answers_example =
    chat-Answers service (body "hello") (around finished) "mock" "mock" adapter (empty_db Unit) 0 []
      refl refl refl
      (record {
        numbered = λ i. tt;
        user = refl;
        assistant = refl;
        apart = λ e. absurd (omega (arith, e));
      })
      (λ i history. record {
        publishable = publishable history i false finished tt;
        ended = refl;
        undisturbed = refl;
      })

-- The reply of an answer.
abbrev reply_text : {S : Type 0} → Result Exn ChatResponse × S → Text
reply_text (ok r, _) = r.assistant_message.content
reply_text (err _, _) = []

answered : reply_text (chat service (body "hello") (around finished) site) ≡ codes "hey"
unfolding chat send resolved resolve_model get record_user_turn session create statement
    append_message llm_inference_logger.Db.Conversations.get insert_message ensure_title messages
    complete_logged complete stream_chat is_valid record_assistant_turn next_seq check_invariants
    fields_ok build_event verdict_of observe_all observe merge_usage preview redact clip
    last_user_text first_user recent_window keep_within last_messages order_by insert_sorted
answered = refl

empty_refused : accepts_body (body "") ≡ false
unfolding accepts_body
empty_refused = refl
