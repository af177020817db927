-- ===== src/Instrumentation/Redaction/Stored.antt =====
-- What a redactor with the default rules stores, stage by stage.
use llm_inference_logger.Prelude.{
  ℕ, ◌≡◌, refl, true, false, some, List, [], ◌∷◌, arith, Text, codes,
}
use llm_inference_logger.Instrumentation.Redaction.Pattern.{Unicode, Regex, sub, start}
use llm_inference_logger.Instrumentation.Redaction.Rules.{
  api_key, bearer_token, email, default_rules, iban, credit_card, ssn, phone, ipv4,
}
use llm_inference_logger.Instrumentation.Redaction.{
  preview, RedactionRule, apply_rules, redact, clip,
}
use llm_inference_logger.Instrumentation.Redaction.Replaced.{Replaced, sub-Replaced}

-- The shapes in the order in which they are sought, each with what stands in its place.
abbrev pub default_shapes : List (Regex × Text)
default_shapes =
    (api_key, codes "[REDACTED_API_KEY]")
    ∷ (bearer_token, codes "[REDACTED_TOKEN]")
    ∷ (email, codes "[REDACTED_EMAIL]")
    ∷ (iban, codes "[REDACTED_IBAN]")
    ∷ (credit_card, codes "[REDACTED_CARD]")
    ∷ (ssn, codes "[REDACTED_SSN]")
    ∷ (phone, codes "[REDACTED_PHONE]")
    ∷ (ipv4, codes "[REDACTED_IP]")
    ∷ []

module _ (u : Unicode) where
  -- A text becomes another by one pass for each shape.
  abbrev pub Stages : List (Regex × Text) → Text → Text → Type 0
  Stages [] t out = t ≡ out
  Stages ((r, new) ∷ shapes) t out =
      (mid : Text) × Replaced u r new false (start t) mid × Stages shapes mid out

  abbrev RulesOf : List (Regex × Text) → List RedactionRule → Type 0
  RulesOf [] rs = rs ≡ []
  RulesOf ((r, new) ∷ shapes) [] = ⊥
  RulesOf ((r, new) ∷ shapes) (k ∷ rs) =
      (k.sub ≡ sub u r) × (k.placeholder ≡ new) × RulesOf shapes rs

  apply_rules-Stages :
      (shapes : List (Regex × Text)) (rs : List RedactionRule) (t : Text)
      → RulesOf shapes rs
      → Stages shapes t (apply_rules rs t)
  unfolding apply_rules
  apply_rules-Stages [] [] t h = refl
  apply_rules-Stages [] (k ∷ rs) t h = absurd (ground arith)
  apply_rules-Stages ((r, new) ∷ shapes) [] t h = elim h [ ]
  apply_rules-Stages ((r, new) ∷ shapes) (k ∷ rs) t (e, f, h) =
      let mid = k.sub k.placeholder t in
      (mid, rw (e, f) (sub-Replaced u r new t), apply_rules-Stages shapes rs mid h)

  -- With the default rules a redactor that is enabled stores, of a text of any length, its clip
  -- after one pass for each shape, in the order of the shapes. A pass goes from left to right: it
  -- puts the placeholder for a match of the shape's pattern, in the sense of the relation `Matches`,
  -- and copies a character only where no match of the pattern starts.
  pub preview-Stages :
      (n : ℕ) (t : Text)
      → (out : Text) × (preview
            (record { max_chars = n; enabled = true; rules = default_rules u })
            (some t)
          ≡ some out)
        × Stages default_shapes (clip n t) out
  unfolding preview redact default_rules
  preview-Stages n t = (
    _,
    refl,
    apply_rules-Stages default_shapes (default_rules u) (clip n t) (
      refl,
      refl,
      (
        refl,
        refl,
        (refl, refl, (refl, refl, (refl, refl, (refl, refl, (refl, refl, (refl, refl, refl)))))),
      ),
    ),
  )
