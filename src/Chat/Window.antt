-- ===== src/Chat/Window.antt =====
-- `recent_window`: the tail of the conversation, bounded by count and by size.
pub mod Bounds
use llm_inference_logger.Prelude.{
  ℕ, zero, suc, ◌+◌, ◌-◌, Bool, true, false, ◌||◌, List, [], ◌∷◌, reverse, leb, if◌then◌else◌,
  length, drop,
}
use llm_inference_logger.Db.Tables.{Message}

abbrev pub size : Message → ℕ
size m = length m.content

-- `history[-n:]`, where `history[-0:]` is all of it.
unfoldable pub last_messages : ℕ → List Message → List Message
last_messages zero history = history
last_messages (suc n) history = drop (length history - suc n) history

-- The loop, over the messages from the newest. What has been spent is `max_chars - budget`, which
-- may pass `max_chars` at the first message only.
unfoldable pub keep_within : ℕ → Bool → ℕ → List Message → List Message
keep_within max_chars nothing_kept spent [] = []
keep_within max_chars nothing_kept spent (m ∷ ms) =
    let rest = keep_within max_chars false (spent + size m) ms in
    if nothing_kept || leb (spent + size m) max_chars then m ∷ rest else []

unfoldable pub recent_window : List Message → ℕ → ℕ → List Message
unfolding last_messages keep_within
recent_window history max_messages max_chars =
    reverse (keep_within max_chars true 0 (reverse (last_messages max_messages history)))
