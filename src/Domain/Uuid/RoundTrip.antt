-- ===== src/Domain/Uuid/RoundTrip.antt =====
-- `uuid.UUID(str(u))` is `u`.
use llm_inference_logger.Prelude.{
  ℕ, zero, suc, ◌+◌, ◌*◌, ◌/◌, ◌%◌, ◌^◌, ◌≤◌, ◌<◌, ◌≡◌, refl, sym, ap, ◌∙◌, subst, ◌⊎◌, inl, inr,
  Bool, true, false, not, none, some, [], ◌∷◌, ◌++◌, reverse, append-nil, append_assoc,
  reverse-reverse, arith, Text, codes, leb, ◌==◌, if◌then◌else◌, Bool-cases, length, take, drop,
  keep, All, All-append, length-append, take-append-drop, All-map, keep-All, All-reverse,
  keep-append, All-take, All-drop, take-more,
}
use native.Mathlib.Nat.{pow-suc}
use llm_inference_logger.Domain.Uuid.{
  hex_char, hex_digits, hex_value, digits_value, print_uuid, parse_uuid, remove, remove_loop,
  strip_braces, lstrip_braces, is_brace, is_hyphen, is_space, lstrip_spaces, strip_spaces, int16,
  unsigned_value, drop_plus, hyphenate,
}

-- What the digits that are printed have in common.
abbrev IsHexChar : ℕ → Type 0
IsHexChar c = ((48 ≤ c) × (c ≤ 57)) ⊎ ((97 ≤ c) × (c ≤ 102))

hex_char-IsHexChar : (d : ℕ) → d < 16 → IsHexChar (hex_char d)
hex_char-IsHexChar d h = elim (Bool-cases (leb d 9)) [
  | inl e ↦ inl (ground arith)
  | inr e ↦ inr (ground arith)
]

hex_value-hex_char : (d : ℕ) → d < 16 → hex_value (hex_char d) ≡ some d
hex_value-hex_char d h = ground arith

hex_digits-All : (n v : ℕ) → All IsHexChar (hex_digits n v)
unfolding hex_digits
hex_digits-All zero v = tt
hex_digits-All (suc n) v =
    All-append IsHexChar (hex_digits n (v / 16)) (hex_char (v % 16) ∷ [])
      (hex_digits-All n (v / 16)) (hex_char-IsHexChar (v % 16) (omega arith), tt)

length-hex_digits : (n v : ℕ) → length (hex_digits n v) ≡ n
unfolding hex_digits
length-hex_digits zero v = refl
length-hex_digits (suc n) v = omega (
  arith,
  length-append (hex_digits n (v / 16)) (hex_char (v % 16) ∷ []),
  length-hex_digits n (v / 16),
)

digits_value-hex_char :
    (acc : ℕ) (o : Bool) (d : ℕ) (rest : Text)
    → d < 16
    → digits_value acc o (hex_char d ∷ rest) ≡ digits_value (16 * acc + d) true rest
unfolding digits_value
digits_value-hex_char acc o d rest h = ground arith

digits_value-hex_digits :
    (n v : ℕ) (rest : Text)
    → v < 16 ^ suc n
    → digits_value 0 false (hex_digits (suc n) v ++ rest) ≡ digits_value v true rest
unfolding hex_digits
digits_value-hex_digits zero v rest h =
    digits_value-hex_char 0 false (v % 16) rest (omega arith)
    ∙ ap (λ k. digits_value k true rest) (omega arith)
digits_value-hex_digits (suc n) v rest h =
    ap (digits_value 0 false)
      (append_assoc (hex_digits (suc n) (v / 16)) (hex_char (v % 16) ∷ []) rest)
    ∙ digits_value-hex_digits n (v / 16) (hex_char (v % 16) ∷ rest)
        (omega (arith, pow-suc 16 (suc n)))
    ∙ digits_value-hex_char (v / 16) true (v % 16) rest (omega arith)
    ∙ ap (λ k. digits_value k true rest) (omega arith)

-- What the printed text is made of.
abbrev IsUuidChar : ℕ → Type 0
IsUuidChar c = IsHexChar c ⊎ (c ≡ 45)

remove_loop-absent :
    (p n : ℕ) (ps t : Text) → All IsUuidChar t → 102 < p → remove_loop (p ∷ ps) n t ≡ t
unfolding remove_loop
remove_loop-absent p zero ps t h big = refl
remove_loop-absent p (suc n) ps [] h big = refl
remove_loop-absent p (suc n) ps (c ∷ t) h big =
    let apart : (p == c) ≡ false = ground (arith, h.0) in
    rw (apart, remove_loop) (ap (◌∷◌ c) (remove_loop-absent p n ps t h.1 big))

remove-absent : (ps t : Text) → All IsUuidChar t → remove (117 ∷ ps) t ≡ t
unfolding remove
remove-absent ps t h = remove_loop-absent 117 (length t) ps t h (omega arith)

lstrip_braces-absent : (t : Text) → All IsUuidChar t → lstrip_braces t ≡ t
unfolding lstrip_braces
lstrip_braces-absent [] h = refl
lstrip_braces-absent (c ∷ t) h = let apart : is_brace c ≡ false = ground (arith, h.0) in rw apart

strip_braces-absent : (t : Text) → All IsUuidChar t → strip_braces t ≡ t
unfolding strip_braces
strip_braces-absent t h =
    ap (λ z. reverse (lstrip_braces (reverse z))) (lstrip_braces-absent t h)
    ∙ ap reverse (lstrip_braces-absent (reverse t) (All-reverse IsUuidChar t h))
    ∙ reverse-reverse t

lstrip_spaces-absent : (t : Text) → All IsHexChar t → lstrip_spaces t ≡ t
unfolding lstrip_spaces
lstrip_spaces-absent [] h = refl
lstrip_spaces-absent (c ∷ t) h = let apart : is_space c ≡ false = ground (arith, h.0) in rw apart

strip_spaces-absent : (t : Text) → All IsHexChar t → strip_spaces t ≡ t
unfolding strip_spaces
strip_spaces-absent t h =
    ap (λ z. reverse (lstrip_spaces (reverse z))) (lstrip_spaces-absent t h)
    ∙ ap reverse (lstrip_spaces-absent (reverse t) (All-reverse IsHexChar t h))
    ∙ reverse-reverse t

unsigned_value-plain :
    (c d : ℕ) (t : Text)
    → IsHexChar c
    → IsHexChar d
    → unsigned_value (drop_plus (c ∷ d ∷ t)) ≡ digits_value 0 false (c ∷ d ∷ t)
unfolding unsigned_value
unsigned_value-plain c d t hc hd = ground arith

keep-digits : (xs : Text) → All IsHexChar xs → keep (λ c. not (is_hyphen c)) xs ≡ xs
keep-digits xs h =
    keep-All (λ c. not (is_hyphen c)) xs
      (All-map IsHexChar (λ c. not (is_hyphen c) ≡ true) xs (λ c d. ground (arith, d)) h)

-- The hyphens come out again.
keep-hyphenate : (h : Text) → All IsHexChar h → keep (λ c. not (is_hyphen c)) (hyphenate h) ≡ h
unfolding hyphenate
keep-hyphenate h d =
    let p = λ (c : ℕ). not (is_hyphen c) in
    simp keep-append (
      rw (keep-digits (take 8 h) (All-take IsHexChar 8 h d)) (
        rw
          (keep-digits (take 4 (drop 8 h))
            (All-take IsHexChar 4 (drop 8 h) (All-drop IsHexChar 8 h d)))
          (rw
            (keep-digits (take 4 (drop 12 h))
              (All-take IsHexChar 4 (drop 12 h) (All-drop IsHexChar 12 h d)))
            (rw
              (keep-digits (take 4 (drop 16 h))
                (All-take IsHexChar 4 (drop 16 h) (All-drop IsHexChar 16 h d)))
              (rw (keep-digits (drop 20 h) (All-drop IsHexChar 20 h d)) (
                rw (take-more 8 4 h)
                  (rw (take-more 12 4 h) (rw (take-more 16 4 h) (take-append-drop 20 h)))))))))

hyphenate-All : (h : Text) → All IsHexChar h → All IsUuidChar (hyphenate h)
unfolding hyphenate
hyphenate-All h d =
    let u = All-map IsHexChar IsUuidChar h (λ c x. inl x) d in
    let piece = λ (n : ℕ). All-take IsUuidChar 4 (drop n h) (All-drop IsUuidChar n h u) in
    All-append IsUuidChar _ _
      (All-append IsUuidChar _ _
        (All-append IsUuidChar _ _
          (All-append IsUuidChar (take 8 h) _ (All-take IsUuidChar 8 h u) (inr refl, piece 8))
          (inr refl, piece 12))
        (inr refl, piece 16))
      (inr refl, All-drop IsUuidChar 20 h u)

print_uuid-hyphenate : (u : ℕ) → print_uuid u ≡ hyphenate (hex_digits 32 u)
unfolding print_uuid
print_uuid-hyphenate u = refl

unsigned_value-digits :
    (t : Text)
    → All IsHexChar t
    → 2 ≤ length t
    → unsigned_value (drop_plus t) ≡ digits_value 0 false t
unsigned_value-digits [] h l = absurd (omega arith)
unsigned_value-digits (c ∷ []) h l = absurd (omega arith)
unsigned_value-digits (c ∷ d ∷ t) h l = unsigned_value-plain c d t h.0 h.1.0

digits_value-end : (v : ℕ) → digits_value v true [] ≡ some v
unfolding digits_value
digits_value-end v = refl

int16-plain : (t : Text) → int16 t ≡ unsigned_value (drop_plus (strip_spaces t))
unfolding int16
int16-plain t = refl

int16-hex_digits : (u : ℕ) → u < 16 ^ 32 → int16 (hex_digits 32 u) ≡ some u
int16-hex_digits u h =
    let digits = hex_digits 32 u in
    int16-plain digits
    ∙ ap (λ t. unsigned_value (drop_plus t)) (strip_spaces-absent digits (hex_digits-All 32 u))
    ∙ unsigned_value-digits digits (hex_digits-All 32 u) (omega (arith, length-hex_digits 32 u))
    ∙ ap (digits_value 0 false) (sym (append-nil digits))
    ∙ digits_value-hex_digits 31 u [] h
    ∙ digits_value-end u

-- A UUID that is printed and read back is the same.
pub parse_uuid-print_uuid : (u : ℕ) → u < 2 ^ 128 → parse_uuid (print_uuid u) ≡ some u
unfolding parse_uuid
parse_uuid-print_uuid u h =
    let t = hyphenate (hex_digits 32 u) in
    let chars = hyphenate-All (hex_digits 32 u) (hex_digits-All 32 u) in
    let hex : keep (λ c. not (is_hyphen c))
          (strip_braces (remove (codes "uuid:") (remove (codes "urn:") (print_uuid u))))
        ≡ hex_digits 32 u =
      ap
        (λ z.
          keep (λ c. not (is_hyphen c))
            (strip_braces (remove (codes "uuid:") (remove (codes "urn:") z))))
        (print_uuid-hyphenate u)
      ∙ ap (λ z. keep (λ c. not (is_hyphen c)) (strip_braces (remove (codes "uuid:") z)))
          (remove-absent (codes "rn:") t chars)
      ∙ ap (λ z. keep (λ c. not (is_hyphen c)) (strip_braces z))
          (remove-absent (codes "uid:") t chars)
      ∙ ap (keep (λ c. not (is_hyphen c))) (strip_braces-absent t chars)
      ∙ keep-hyphenate (hex_digits 32 u) (hex_digits-All 32 u) in
    subst (λ z. (if length z == 32 then int16 z else none) ≡ some u) (sym hex)
      (rw (length-hex_digits 32 u) (int16-hex_digits u h))
