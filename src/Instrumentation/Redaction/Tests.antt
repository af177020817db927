-- ===== src/Instrumentation/Redaction/Tests.antt =====
-- The default rules at work, and inputs at which they fall short.
use llm_inference_logger.Prelude.{
  ℕ, String, ◌≡◌, refl, true, false, Option, some, ◌++◌, Text, codes,
}
use llm_inference_logger.Instrumentation.Redaction.{Redactor, preview, ellipsis, redact, clip}
use llm_inference_logger.Instrumentation.Redaction.Pattern.{Unicode}
use llm_inference_logger.Instrumentation.Redaction.Rules.{default_rules}
use llm_inference_logger.Instrumentation.Redaction.Stored.{Stages, default_shapes, preview-Stages}

abbrev pub ascii : Unicode
ascii = record {
  is_digit = λ _. false;
  is_letter = λ _. false;
  is_space = λ _. false;
  fold = λ c. c;
}

abbrev redactor : ℕ → Redactor
redactor n = record { max_chars = n; enabled = true; rules = default_rules ascii }

abbrev shown : ℕ → String → Option Text
unfolding default_rules preview redact clip
shown n s = preview (redactor n) (some (codes s))

plain : shown 200 "hello world, 7 apples" ≡ some (codes "hello world, 7 apples")
unfolding shown
plain = refl

mail : shown 200 "Write to Ann.B@example.co.uk now" ≡ some (codes "Write to [REDACTED_EMAIL] now")
unfolding shown
mail = refl

key : shown 200 "key sk-abcdefghij0123456789 end" ≡ some (codes "key [REDACTED_API_KEY] end")
unfolding shown
key = refl

bearer : shown 200 "bearer abcdefghij0123456789" ≡ some (codes "[REDACTED_TOKEN]")
unfolding shown
bearer = refl

card : shown 200 "4111 1111 1111 1111" ≡ some (codes "[REDACTED_CARD]")
unfolding shown
card = refl

ssn_ : shown 200 "ssn 123-45-6789." ≡ some (codes "ssn [REDACTED_SSN].")
unfolding shown
ssn_ = refl

tel : shown 200 "call +1 (555) 010-9999" ≡ some (codes "call [REDACTED_PHONE]")
unfolding shown
tel = refl

address : shown 200 "at 10.0.0.1" ≡ some (codes "at [REDACTED_IP]")
unfolding shown
address = refl

address_as_phone : shown 200 "192.168.100.200" ≡ some (codes "[REDACTED_PHONE].200")
unfolding shown
address_as_phone = refl

card_and_word : shown 200 "4111111111111111 paid" ≡ some (codes "[REDACTED_CARD]paid")
unfolding shown
card_and_word = refl

account : shown 200 "DE89370400440532013000" ≡ some (codes "[REDACTED_IBAN]")
unfolding shown
account = refl

-- A clip inside a card number leaves its first digits: the rules see the clipped text alone.
clipped_card : shown 12 "4111111111111111" ≡ some (codes "411111111111" ++ ellipsis)
unfolding shown
clipped_card = refl

preview-Stages_example :
    (out : Text) × (shown 30 "mail ann@example.org or 192.168.100.200" ≡ some out)
    × Stages ascii default_shapes (clip 30 (codes "mail ann@example.org or 192.168.100.200")) out
unfolding shown
preview-Stages_example = preview-Stages ascii 30 (codes "mail ann@example.org or 192.168.100.200")
