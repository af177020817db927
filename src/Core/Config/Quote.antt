-- ===== src/Core/Config/Quote.antt =====
-- `urllib.parse.quote` with `safe=''`: the bytes of the UTF-8 text, each one that is not a letter, a
-- digit or one of `_.-~` as `%` and two hexadecimal digits. A text with a surrogate in it is refused.
use llm_inference_logger.Prelude.{
  ℕ, ◌+◌, ◌/◌, ◌%◌, Bool, ◌&&◌, ◌||◌, List, [], ◌∷◌, ◌++◌, Text, ltb, leb, ◌==◌, if◌then◌else◌,
  false,
}
use llm_inference_logger.Core.Errors.{Exn, other}
use llm_inference_logger.Prelude.Outcome.{Result, err, ok}

abbrev pub is_surrogate : ℕ → Bool
is_surrogate c = leb 55296 c && leb c 57343

abbrev pub has_surrogate : Text → Bool
has_surrogate [] = false
has_surrogate (c ∷ t) = is_surrogate c || has_surrogate t

-- The UTF-8 bytes of a code point that is no surrogate.
unfoldable pub utf8_char : ℕ → List ℕ
utf8_char c =
    if ltb c 128
    then c ∷ []
    else if ltb c 2048
    then (192 + c / 64) ∷ (128 + c % 64) ∷ []
    else if ltb c 65536
    then (224 + c / 4096) ∷ (128 + c / 64 % 64) ∷ (128 + c % 64) ∷ []
    else (240 + c / 262144) ∷ (128 + c / 4096 % 64) ∷ (128 + c / 64 % 64) ∷ (128 + c % 64) ∷ []

unfoldable pub utf8 : Text → List ℕ
unfolding utf8_char
utf8 [] = []
utf8 (c ∷ t) = utf8_char c ++ utf8 t

abbrev pub is_unreserved : ℕ → Bool
is_unreserved b =
    leb 48 b && leb b 57
    || leb 65 b && leb b 90
    || leb 97 b && leb b 122
    || b == 95
    || b == 46
    || b == 45
    || b == 126

-- A digit of `%02X`.
abbrev pub hex_digit : ℕ → ℕ
hex_digit d = if ltb d 10 then 48 + d else 55 + d

unfoldable pub quote_byte : ℕ → Text
quote_byte b = if is_unreserved b then b ∷ [] else 37 ∷ hex_digit (b / 16) ∷ hex_digit (b % 16) ∷ []

unfoldable pub quote_bytes : List ℕ → Text
unfolding quote_byte
quote_bytes [] = []
quote_bytes (b ∷ bs) = quote_byte b ++ quote_bytes bs

-- What the strict encoder raises.
abbrev pub encode_error : Exn
encode_error = other "UnicodeEncodeError" "surrogates not allowed"

unfoldable pub quote : Text → Result Exn Text
unfolding utf8 quote_bytes
quote t = if has_surrogate t then err encode_error else ok (quote_bytes (utf8 t))
