-- ===== src/Chat/Turn/Returns.antt =====
-- What the two units of work of a turn return, whichever statements fail.
use llm_inference_logger.Prelude.{ℕ, ◌≡◌, sym, Option, none, some, List, arith, Text}
use llm_inference_logger.Db.Session.{Conn}
use llm_inference_logger.Db.Tables.{Message, Conversation, find_conversation}
use llm_inference_logger.Domain.Enums.{MessageRole}
use llm_inference_logger.Db.Conversations.{
  append_message, insert_message, select_next_seq, insert_at, touch, require, or_not_found,
  ensure_title, messages, create, get,
}
use llm_inference_logger.Chat.Turn.Opens.{Continues}
use llm_inference_logger.Chat.Turn.{
  Surroundings, ChatService, Ask, record_user_turn, record_assistant_turn, open_conversation,
}
use llm_inference_logger.Prelude.Outcome.{◌>>=◌, >>=-cases}
use llm_inference_logger.Prelude.Outcome.Returns.{Returns, bind-Returns, then-Returns}
use llm_inference_logger.Db.Session.Laws.{statement-reads}
use llm_inference_logger.Db.Conversations.Known.{found-id}
use llm_inference_logger.Db.Session.Returns.{statement-Returns, session-Returns}

-- The message that was asked to be written.
abbrev pub Says : MessageRole → Text → Message → Type 0
Says role content m = (m.role ≡ role) × (m.content ≡ content)

append_message-Returns :
    {P : Type 0} (mid i : ℕ) (role : MessageRole) (content : Text) (c : Conn P)
    → Returns (Says role content) (append_message mid i role content c)
unfolding append_message insert_message
append_message-Returns mid i role content = then-Returns _ (get i) _ (λ _.
    bind-Returns (Says role content) _ (select_next_seq i >>= insert_at mid i role content) _
      (then-Returns _ (select_next_seq i) _
        (λ n c. statement-Returns (Says role content) _ (λ db a db' e. ground (arith, e)) c))
      (λ m h. then-Returns _ (touch i) _ (λ _ c. h)))

abbrev pub Opened : Ask → Conversation × Message × List Message → Type 0
Opened ask turn = Continues ask.conversation_id turn.0.id × Says MessageRole.user ask.content turn.1

module _ {P : Type 0} (service : ChatService) (ask : Ask) (s : Surroundings) where
  require_found :
      (i : ℕ) (found : Option Conversation) (cs : List Conversation) (c : Conn P)
      → found ≡ find_conversation i cs
      → Returns (λ x. x.id ≡ i) (or_not_found i found c)
  require_found i none cs c e = tt
  require_found i (some x) cs c e = found-id i cs x (sym e)

  open_conversation-Returns :
      (i : Option ℕ) (c : Conn P)
      → Returns (λ x. Continues i x.id) (open_conversation service ask s i c)
  unfolding require get create
  open_conversation-Returns none c =
      statement-Returns (λ x. Continues none x.id) _ (λ db a db' e. tt) c
  open_conversation-Returns (some i) c =
      let read = statement-reads (λ db. find_conversation i db.conversations) c in
      >>=-cases (get i) (or_not_found i) c (Returns (λ x. x.id ≡ i)) (λ e r. tt)
        (λ found r. require_found i found c.db.conversations _ (read.1 found r))

  pub record_user_turn-Returns :
      (c : Conn P) → Returns (Opened ask) (record_user_turn service ask s c)
  unfolding record_user_turn
  record_user_turn-Returns = session-Returns (Opened ask) s.first_now _ (
      bind-Returns (λ x. Continues ask.conversation_id x.id) _
        (open_conversation service ask s ask.conversation_id) _
        (open_conversation-Returns ask.conversation_id)
        (λ conv known.
          bind-Returns (Says MessageRole.user ask.content) _
            (append_message s.user_id conv.id MessageRole.user ask.content) _
            (append_message-Returns s.user_id conv.id MessageRole.user ask.content)
            (λ m says.
              then-Returns _ (ensure_title conv.id ask.content) _
                (λ _. then-Returns _ (messages conv.id) _ (λ history c. (known, says))))))

  pub record_assistant_turn-Returns :
      (i : ℕ) (content : Text) (c : Conn P)
      → Returns
          (Says MessageRole.assistant content)
          (record_assistant_turn service ask s i content c)
  unfolding record_assistant_turn
  record_assistant_turn-Returns i content =
      session-Returns (Says MessageRole.assistant content) s.second_now _
        (append_message-Returns s.assistant_id i MessageRole.assistant content)
