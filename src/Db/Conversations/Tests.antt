-- ===== src/Db/Conversations/Tests.antt =====
-- Two conversations, appends to them, and the theorems on them.
use llm_inference_logger.Prelude.{
  ℕ, zero, suc, ◌≤◌, ◌≡◌, refl, ◌≢◌, false, none, [], ◌∷◌, ◌++◌, arith, codes, ◌==◌,
}
use llm_inference_logger.Prelude.Outcome.{ok}
use llm_inference_logger.Domain.Enums.{MessageRole, ConversationStatus}
use llm_inference_logger.Db.Tables.{Db, Conversation, Message, empty_db}
use llm_inference_logger.Db.Session.{Conn, served, refused}
use llm_inference_logger.Db.Conversations.{append_message, in_order, title_of}
use llm_inference_logger.Db.Conversations.Seq.{
  IsNumbered, calm, appended, append_message-appends, append_message-IsNumbered,
}

abbrev conversation : ℕ → Conversation
conversation i = record {
  id = i;
  title = none;
  status = ConversationStatus.active;
  created_at = 0;
  updated_at = 0;
}

abbrev message : ℕ → ℕ → ℕ → Message
message mid i n = record {
  id = mid;
  conversation_id = i;
  role = MessageRole.user;
  content = codes "hi";
  seq = n;
  created_at = 1;
}

abbrev two_talks : Db (Unit {0})
two_talks = record (empty_db Unit) {
  conversations = conversation 1 ∷ conversation 2 ∷ [];
  messages = message 10 1 0 ∷ message 11 2 0 ∷ message 12 1 1 ∷ [];
}

title : title_of (codes "  Hello\nthere ") ≡ codes "Hello there"
unfolding title_of
title = refl

no_other : (k i : ℕ) → k ≤ 2 → (k == suc (suc (suc i))) ≡ false
no_other k i h = ground arith

two_talks-IsNumbered : IsNumbered two_talks.messages
two_talks-IsNumbered zero = tt
two_talks-IsNumbered (suc zero) = (refl, (refl, tt))
two_talks-IsNumbered (suc (suc zero)) = (refl, tt)
two_talks-IsNumbered (suc (suc (suc i))) =
    rw (no_other 1 i (omega arith)) (rw (no_other 2 i (omega arith)) tt)

append_message-appends_example :
    let m = appended 13 1 MessageRole.assistant (codes "yes") two_talks 5 in
    let (r, conn) = append_message 13 1 MessageRole.assistant (codes "yes") (calm two_talks 5) in
    (r ≡ ok m)
    × (in_order 1 conn.db ≡ in_order 1 two_talks ++ m ∷ [])
    × ((j : ℕ) → j ≢ 1 → in_order j conn.db ≡ in_order j two_talks)
append_message-appends_example =
    append_message-appends 13 1 MessageRole.assistant (codes "yes") two_talks 5 refl refl
      two_talks-IsNumbered

abbrev failing : Conn (Unit {0})
failing = record { db = two_talks; now = 5; faults = served ∷ served ∷ served ∷ refused ∷ [] }

append_message-IsNumbered_example :
    IsNumbered (append_message 13 2 MessageRole.user (codes "and") failing).1.db.messages
append_message-IsNumbered_example =
    append_message-IsNumbered 13 2 MessageRole.user (codes "and") failing two_talks-IsNumbered
