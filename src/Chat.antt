-- ===== src/Chat.antt =====
-- backend/app/services/chat.py: the turns of a conversation.
pub mod Window
pub mod Turn
mod Tests
