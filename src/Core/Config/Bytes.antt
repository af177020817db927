-- ===== src/Core/Config/Bytes.antt =====
-- A quoted text has no delimiter in it, and gives back its bytes.
use llm_inference_logger.Prelude.{
  ℕ, ◌+◌, ◌*◌, ◌/◌, ◌%◌, ◌<◌, ◌≡◌, refl, ap, ◌∙◌, ◌≢◌, inl, inr, true, false, List, [], ◌∷◌, arith,
  Text, Bool-cases, All, All-append,
}
use llm_inference_logger.Core.Config.Client.{unquote, is_hex, hex_value}
use llm_inference_logger.Core.Config.Quote.{
  quote_bytes, quote_byte, utf8, utf8_char, is_unreserved, hex_digit,
}
use llm_inference_logger.Core.Config.Split.{Free, is_delimiter}

abbrev pub IsByte : ℕ → Type 0
IsByte b = b < 256

pub utf8_char-IsByte : (c : ℕ) → c < 1114112 → All IsByte (utf8_char c)
unfolding utf8_char
utf8_char-IsByte c h = ground arith

pub utf8-IsByte : (t : Text) → All (λ c. c < 1114112) t → All IsByte (utf8 t)
unfolding utf8
utf8-IsByte [] h = tt
utf8-IsByte (c ∷ t) h =
    All-append IsByte (utf8_char c) (utf8 t) (utf8_char-IsByte c h.0) (utf8-IsByte t h.1)

pub quote_byte-Free : (b : ℕ) → IsByte b → Free is_delimiter (quote_byte b)
unfolding quote_byte
quote_byte-Free b h = ground arith

pub quote_bytes-Free : (bs : List ℕ) → All IsByte bs → Free is_delimiter (quote_bytes bs)
unfolding quote_bytes
quote_bytes-Free [] h = tt
quote_bytes-Free (b ∷ bs) h =
    All-append (λ c. is_delimiter c ≡ false) (quote_byte b) (quote_bytes bs) (quote_byte-Free b h.0)
      (quote_bytes-Free bs h.1)

pub unquote-plain : (c : ℕ) (t : Text) → c ≢ 37 → unquote (c ∷ t) ≡ c ∷ unquote t
unfolding unquote
unquote-plain c [] h = refl
unquote-plain c (a ∷ []) h = refl
unquote-plain c (a ∷ b ∷ t) h = ground arith

pub hex_digit_lem : (d : ℕ) → d < 16 → (is_hex (hex_digit d) ≡ true) × (hex_value (hex_digit d) ≡ d)
hex_digit_lem d h = ground arith

pub unquote-hex :
    (b : ℕ) (t : Text)
    → IsByte b
    → unquote (37 ∷ hex_digit (b / 16) ∷ hex_digit (b % 16) ∷ t) ≡ b ∷ unquote t
unfolding unquote
unquote-hex b t h =
    let high = hex_digit_lem (b / 16) (ground arith) in
    let low = hex_digit_lem (b % 16) (ground arith) in
    let whole : b / 16 * 16 + b % 16 ≡ b = omega arith in
    rw (high.0, high.1, low.0, low.1) (ap (λ x. x ∷ unquote t) whole)

pub unquote-nil : unquote [] ≡ []
unfolding unquote
unquote-nil = refl

pub unquote-quote : (bs : List ℕ) → All IsByte bs → unquote (quote_bytes bs) ≡ bs
unfolding quote_bytes quote_byte
unquote-quote [] h = unquote-nil
unquote-quote (b ∷ bs) h = elim (Bool-cases (is_unreserved b)) [
  | inl e ↦
      rw e (unquote-plain b (quote_bytes bs) (ground arith) ∙ ap (◌∷◌ b) (unquote-quote bs h.1))
  | inr e ↦ rw e (unquote-hex b (quote_bytes bs) h.0 ∙ ap (◌∷◌ b) (unquote-quote bs h.1))
]
