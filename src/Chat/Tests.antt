-- ===== src/Chat/Tests.antt =====
-- A conversation of four messages and the window over it.
use llm_inference_logger.Prelude.{ℕ, ◌≡◌, refl, List, [], ◌∷◌, arith, Text, codes, drop}
use llm_inference_logger.Db.Tables.{Message}
use llm_inference_logger.Chat.Window.{recent_window}
use llm_inference_logger.Chat.Window.Bounds.{IsWindow, recent_window-IsWindow}
use llm_inference_logger.Domain.Enums.{MessageRole}

abbrev message : ℕ → Text → Message
message n t = record {
  id = n;
  conversation_id = 1;
  role = MessageRole.user;
  content = t;
  seq = n;
  created_at = n;
}

abbrev history : List Message
history =
    message 0 (codes "first")
    ∷ message 1 (codes "second")
    ∷ message 2 (codes "third")
    ∷ message 3 (codes "fourth")
    ∷ []

window : recent_window history 3 11 ≡ drop 2 history
unfolding recent_window
window = refl

-- A newest message that passes the budget alone is kept.
window-over_budget : recent_window history 3 2 ≡ drop 3 history
unfolding recent_window
window-over_budget = refl

recent_window-IsWindow_example : IsWindow history 3 11 (recent_window history 3 11)
recent_window-IsWindow_example = recent_window-IsWindow history 3 11 (omega arith)
