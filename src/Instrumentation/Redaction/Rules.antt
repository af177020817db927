-- ===== src/Instrumentation/Redaction/Rules.antt =====
-- `_rule` and `DEFAULT_RULES` of backend/app/instrumentation/redaction.py.
use llm_inference_logger.Prelude.{ℕ, ◌-◌, String, List, [], ◌∷◌, Text, codes}
use llm_inference_logger.Instrumentation.Redaction.Pattern.{
  Item, Unicode, Regex, one_of, repeat, seq, range, either, sub, edge, digit, many, word, space,
}
use llm_inference_logger.Instrumentation.Redaction.{RedactionRule}

-- A character, and a literal text of at least one.
abbrev is : ℕ → Regex
is c = one_of (range c c ∷ [])

abbrev lit : Text → Regex → Regex
lit [] r = r
lit (c ∷ t) r = seq (is c) (lit t r)

infixr 60 ◌≫◌
abbrev ◌≫◌ : Regex → Regex → Regex
r ≫ s = seq r s

abbrev optional : Regex → Regex
optional r = repeat r 0 1

abbrev a_z : List Item
a_z = range 65 90 ∷ range 97 122 ∷ []

-- `[A-Za-z0-9]` and more
abbrev alnum : List Item → List Item
alnum k = range 65 90 ∷ range 97 122 ∷ range 48 57 ∷ k

abbrev chr : ℕ → Item
chr c = range c c

-- `[ \-]` and `[ \-.]`
abbrev gap : Regex
gap = one_of (chr 32 ∷ chr 45 ∷ [])

abbrev gap_or_dot : Regex
gap_or_dot = one_of (chr 32 ∷ chr 45 ∷ chr 46 ∷ [])

abbrev digits : ℕ → ℕ → Regex
digits m n = repeat (one_of (digit ∷ [])) m (n - m)

abbrev pub api_key : Regex
api_key =
    edge
    ≫ either (lit (codes "s") (is 107))
        (either (lit (codes "p") (is 107)) (lit (codes "r") (is 107)))
    ≫ is 45
    ≫ many (alnum (chr 95 ∷ chr 45 ∷ [])) 16
    ≫ edge

abbrev pub bearer_token : Regex
bearer_token =
    edge
    ≫ lit (codes "Bearer")
        (many (space ∷ []) 1 ≫ many (alnum (chr 46 ∷ chr 95 ∷ chr 45 ∷ [])) 16 ≫ edge)

abbrev pub email : Regex
email =
    edge
    ≫ many (word ∷ chr 46 ∷ chr 37 ∷ chr 43 ∷ chr 45 ∷ []) 1
    ≫ is 64
    ≫ many (word ∷ chr 46 ∷ chr 45 ∷ []) 1
    ≫ is 46
    ≫ many a_z 2
    ≫ edge

abbrev pub iban : Regex
iban =
    edge
    ≫ repeat (one_of (range 65 90 ∷ [])) 2 0
    ≫ digits 2 2
    ≫ repeat (one_of (range 65 90 ∷ range 48 57 ∷ [])) 10 20
    ≫ edge

abbrev pub credit_card : Regex
credit_card = edge ≫ repeat (one_of (digit ∷ []) ≫ optional gap) 13 6 ≫ edge

abbrev pub ssn : Regex
ssn = edge ≫ digits 3 3 ≫ is 45 ≫ digits 2 2 ≫ is 45 ≫ digits 4 4 ≫ edge

abbrev pub phone : Regex
phone =
    optional (is 43 ≫ digits 1 3 ≫ optional gap_or_dot)
    ≫ either (is 40 ≫ digits 2 4 ≫ is 41 ≫ optional gap_or_dot) (digits 2 4 ≫ gap_or_dot)
    ≫ digits 3 4
    ≫ optional gap_or_dot
    ≫ digits 3 4
    ≫ edge

abbrev pub ipv4 : Regex
ipv4 = edge ≫ repeat (digits 1 3 ≫ is 46) 3 0 ≫ digits 1 3 ≫ edge

module _ (u : Unicode) where
  -- `_rule`
  unfoldable pub rule : String → Regex → String → RedactionRule
  unfolding sub
  rule name pattern placeholder = record {
    name = name;
    sub = sub u pattern;
    placeholder = codes placeholder;
  }

  unfoldable pub default_rules : List RedactionRule
  unfolding rule
  default_rules =
      rule "api_key" api_key "[REDACTED_API_KEY]"
      ∷ rule "bearer_token" bearer_token "[REDACTED_TOKEN]"
      ∷ rule "email" email "[REDACTED_EMAIL]"
      ∷ rule "iban" iban "[REDACTED_IBAN]"
      ∷ rule "credit_card" credit_card "[REDACTED_CARD]"
      ∷ rule "ssn" ssn "[REDACTED_SSN]"
      ∷ rule "phone" phone "[REDACTED_PHONE]"
      ∷ rule "ipv4" ipv4 "[REDACTED_IP]"
      ∷ []
