-- ===== src/Domain/Uuid.antt =====
-- A UUID is its 128-bit integer. `uuid.UUID(text)` and `str(uuid)`, over code points.
pub mod RoundTrip
use llm_inference_logger.Prelude.{
  ℕ, zero, suc, ◌+◌, ◌-◌, ◌*◌, ◌/◌, ◌%◌, Text, codes, Bool, true, false, ◌&&◌, ◌||◌, Option, none,
  some, [], ◌∷◌, ◌++◌, length, reverse, ◌==◌, leb, if◌then◌else◌, keep, take, drop, not,
}

-- The code points after `prefix`, if the text starts with it.
abbrev pub after_prefix : Text → Text → Option Text
after_prefix [] t = some t
after_prefix (p ∷ ps) [] = none
after_prefix (p ∷ ps) (c ∷ t) = if p == c then after_prefix ps t else none

-- `text.replace(old, "")` for a non-empty `old`: from the left, without overlaps. Each round uses
-- up at least one code point, so the length of the text is enough fuel.
remove_loop : Text → ℕ → Text → Text
remove_loop old zero t = t
remove_loop old (suc n) [] = []
remove_loop old (suc n) (c ∷ t) = elim (after_prefix old (c ∷ t)) [
  | none ↦ c ∷ remove_loop old n t
  | some rest ↦ remove_loop old n rest
]

unfoldable pub remove : Text → Text → Text
unfolding remove_loop
remove old t = remove_loop old (length t) t

abbrev is_brace : ℕ → Bool
is_brace c = c == b'{' || c == b'}'

lstrip_braces : Text → Text
lstrip_braces [] = []
lstrip_braces (c ∷ t) = if is_brace c then lstrip_braces t else c ∷ t

-- `text.strip("{}")`
unfoldable pub strip_braces : Text → Text
unfolding lstrip_braces
strip_braces t = reverse (lstrip_braces (reverse (lstrip_braces t)))

abbrev pub is_hyphen : ℕ → Bool
is_hyphen c = c == b'-'

-- The value of a hexadecimal digit, in either case.
abbrev pub hex_value : ℕ → Option ℕ
hex_value c =
    if leb b'0' c && leb c b'9'
    then some (c - 48)
    else if leb b'a' c && leb c b'f'
    then some (c - 87)
    else if leb b'A' c && leb c b'F'
    then some (c - 55)
    else none

-- Digits with single underscores between them. `open_` says that the last code point was a digit.
digits_value : ℕ → Bool → Text → Option ℕ
digits_value acc open_ [] = if open_ then some acc else none
digits_value acc open_ (c ∷ t) =
    if c == b'_'
    then (if open_ then digits_value acc false t else none)
    else elim (hex_value c) [ none ↦ none | some d ↦ digits_value (16 * acc + d) true t ]

abbrev is_space : ℕ → Bool
is_space c = (leb 9 c && leb c 13) || (leb 28 c && leb c 32)

lstrip_spaces : Text → Text
lstrip_spaces [] = []
lstrip_spaces (c ∷ t) = if is_space c then lstrip_spaces t else c ∷ t

strip_spaces : Text → Text
unfolding lstrip_spaces
strip_spaces t = reverse (lstrip_spaces (reverse (lstrip_spaces t)))

-- An optional sign. A minus has been removed with the hyphens before this is called.
abbrev drop_plus : Text → Text
drop_plus [] = []
drop_plus (c ∷ t) = if c == b'+' then t else c ∷ t

-- After the prefix `0x` one underscore may stand before the digits.
abbrev prefixed_value : Text → Option ℕ
prefixed_value [] = none
prefixed_value (c ∷ t) = if c == b'_' then digits_value 0 false t else digits_value 0 false (c ∷ t)

abbrev is_x : ℕ → Bool
is_x c = c == b'x' || c == b'X'

unsigned_value : Text → Option ℕ
unsigned_value [] = none
unsigned_value (c ∷ []) = digits_value 0 false (c ∷ [])
unsigned_value (c ∷ d ∷ t) =
    if c == b'0' && is_x d then prefixed_value t else digits_value 0 false (c ∷ d ∷ t)

-- `int(text, 16)` for ASCII text without a minus sign.
unfoldable pub int16 : Text → Option ℕ
unfolding unsigned_value strip_spaces digits_value
int16 t = unsigned_value (drop_plus (strip_spaces t))

-- `uuid.UUID(hex)`, where `none` is the ValueError.
unfoldable pub parse_uuid : Text → Option ℕ
parse_uuid t =
    let hex =
      keep (λ c. not (is_hyphen c))
        (strip_braces (remove (codes "uuid:") (remove (codes "urn:") t))) in
    if length hex == 32 then int16 hex else none

abbrev pub hex_char : ℕ → ℕ
hex_char d = if leb d 9 then 48 + d else 87 + d

-- The `n` last hexadecimal digits of a number, the highest first.
unfoldable pub hex_digits : ℕ → ℕ → Text
hex_digits zero v = []
hex_digits (suc n) v = hex_digits n (v / 16) ++ hex_char (v % 16) ∷ []

-- 8-4-4-4-12 digits.
hyphenate : Text → Text
hyphenate h =
    take 8 h
    ++ b'-' ∷ take 4 (drop 8 h)
    ++ b'-' ∷ take 4 (drop 12 h)
    ++ b'-' ∷ take 4 (drop 16 h)
    ++ b'-' ∷ drop 20 h

-- `str(uuid)`
unfoldable pub print_uuid : ℕ → Text
unfolding hyphenate hex_digits
print_uuid u = hyphenate (hex_digits 32 u)
