-- ===== src/Providers/Vendor/Anthropic/Laws.antt =====
-- How the messages of a request are split between the system prompt and the turns.
use llm_inference_logger.Prelude.{
  ◌≡◌, sym, ap, ◌∙◌, Bool, true, false, not, Option, some, List, [], ◌∷◌, ◌++◌, map, append-nil,
  append_assoc, Text, keep,
}
use llm_inference_logger.Domain.Enums.{MessageRole}
use llm_inference_logger.Providers.Base.{ChatMessage, ChatRequest}
use llm_inference_logger.Providers.Vendor.{VendorMessage, truthy}
use llm_inference_logger.Providers.Vendor.Anthropic.{
  split_turns, split_system, system_part, join_paragraphs,
}

abbrev pub is_system : ChatMessage → Bool
is_system m = elim m.role [
  | MessageRole.system ↦ true
  | MessageRole.user ↦ false
  | MessageRole.assistant ↦ false
]

-- A turn under the role that the vendor knows.
abbrev pub turn_of : ChatMessage → VendorMessage
turn_of m = record {
  role = elim m.role [
    | MessageRole.assistant ↦ "assistant"
    | MessageRole.user ↦ "user"
    | MessageRole.system ↦ "user"
  ];
  content = m.content;
}

abbrev pub contents : List ChatMessage → List Text
contents ms = map (λ m. m.content) ms

-- What the loop makes of the parts and the turns so far and the messages to come.
Splits : List ChatMessage → Type 0
Splits ms =
    (parts : List Text) (turns : List VendorMessage)
    → split_turns parts turns ms ≡ (
      parts ++ contents (keep is_system ms),
      turns ++ map turn_of (keep (λ m. not (is_system m)) ms),
    )

message-Splits :
    (r : MessageRole) (c : Text) (ms : List ChatMessage)
    → Splits ms
    → Splits (record { role = r; content = c } ∷ ms)
unfolding split_turns Splits
message-Splits MessageRole.system c ms h parts turns =
    h (parts ++ c ∷ []) turns
    ∙ ap (λ p. (p, turns ++ map turn_of (keep (λ m. not (is_system m)) ms)))
        (append_assoc parts (c ∷ []) (contents (keep is_system ms)))
message-Splits MessageRole.user c ms h parts turns =
    h parts (turns ++ record { role = "user"; content = c } ∷ [])
    ∙ ap (λ t. (parts ++ contents (keep is_system ms), t))
        (append_assoc turns (record { role = "user"; content = c } ∷ [])
          (map turn_of (keep (λ m. not (is_system m)) ms)))
message-Splits MessageRole.assistant c ms h parts turns =
    h parts (turns ++ record { role = "assistant"; content = c } ∷ [])
    ∙ ap (λ t. (parts ++ contents (keep is_system ms), t))
        (append_assoc turns (record { role = "assistant"; content = c } ∷ [])
          (map turn_of (keep (λ m. not (is_system m)) ms)))

all-Splits : (ms : List ChatMessage) → Splits ms
unfolding split_turns Splits
all-Splits [] parts turns =
    ap (λ p. (p, turns)) (sym (append-nil parts))
    ∙ ap (λ t. (parts ++ [], t)) (sym (append-nil turns))
all-Splits (m ∷ ms) parts turns =
    message-Splits m.role m.content ms (λ p t. all-Splits ms p t) parts turns

-- The turns that are sent are the messages that are no system messages, in their order. The system
-- prompt is the request's own, where it has one that is not empty, and then the contents of all the
-- system messages in their order, a blank line between any two; a prompt that comes out empty is
-- left out.
pub split_system_hoists :
    (request : ChatRequest)
    → split_system request ≡ (
      truthy (
          some (
            join_paragraphs
              (system_part (truthy request.system) ++ contents (keep is_system request.messages)))),
      map turn_of (keep (λ m. not (is_system m)) request.messages),
    )
unfolding split_system Splits
split_system_hoists request =
    let finish : (List Text × List VendorMessage) → (Option Text × List VendorMessage) =
      λ z. (truthy (some (join_paragraphs z.0)), z.1) in
    ap finish (all-Splits request.messages (system_part (truthy request.system)) [])
