-- ===== src/Instrumentation/Redaction.antt =====
-- backend/app/instrumentation/redaction.py: the redactor over any rules, as its constructor takes
-- them. The child modules hold the patterns of `DEFAULT_RULES` and the engine that runs them.
pub mod Pattern
mod Matches
mod Engine
mod Replaced
pub mod Rules
mod Stored
pub mod Tests
use llm_inference_logger.Prelude.{
  ℕ, String, Bool, not, Option, none, some, List, [], ◌∷◌, ◌++◌, Text, ltb, if◌then◌else◌, length,
  take,
}

-- A compiled pattern is used by `pattern.sub(placeholder, text)` alone.
pub record RedactionRule : Type 0 where
  pub name : String
  pub sub : Text → Text → Text
  pub placeholder : Text

pub record Redactor : Type 0 where
  pub max_chars : ℕ
  pub enabled : Bool
  pub rules : List RedactionRule

-- The loop of `redact`.
unfoldable pub apply_rules : List RedactionRule → Text → Text
apply_rules [] t = t
apply_rules (r ∷ rs) t = apply_rules rs (r.sub r.placeholder t)

unfoldable pub redact : Redactor → Text → Text
unfolding apply_rules
redact r t = if not r.enabled then t else apply_rules r.rules t

-- "…"
abbrev pub ellipsis : Text
ellipsis = 8230 ∷ []

unfoldable pub clip : ℕ → Text → Text
clip n t = take n t ++ (if ltb n (length t) then ellipsis else [])

-- `Redactor.preview`
unfoldable pub preview : Redactor → Option Text → Option Text
preview r none = none
preview r (some t) = some (redact r (clip r.max_chars t))
