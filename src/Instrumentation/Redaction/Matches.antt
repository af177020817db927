-- ===== src/Instrumentation/Redaction/Matches.antt =====
-- What a pattern means, said without backtracking: the matches of the
-- expressions of Instrumentation/Redaction/Pattern.antt as relations of places.
use llm_inference_logger.Prelude.{
  ℕ, zero, suc, ◌+◌, ◌≤◌, ◌≡◌, ◌⊎◌, inl, inr, true, some, List, [], ◌∷◌, ◌++◌, Text,
}
use llm_inference_logger.Instrumentation.Redaction.Pattern.{
  Place, Unicode, Regex, Item, one_of, allowed, place, many, edge, at_edge, seq, either, repeat,
}

-- `x` is in a list.
abbrev pub In : {A : Type 0} → A → List A → Type 0
In x [] = ⊥
In x (y ∷ ys) = (x ≡ y) ⊎ In x ys

module _ {A : Type 0} (x : A) where
  pub In-append_left : (xs ys : List A) → In x xs → In x (xs ++ ys)
  In-append_left [] ys h = elim h [ ]
  In-append_left (y ∷ xs) ys (inl e) = inl e
  In-append_left (y ∷ xs) ys (inr h) = inr (In-append_left xs ys h)

  pub In-append_right : (xs ys : List A) → In x ys → In x (xs ++ ys)
  In-append_right [] ys h = h
  In-append_right (y ∷ xs) ys h = inr (In-append_right xs ys h)

  pub In-append_cases : (xs ys : List A) → In x (xs ++ ys) → In x xs ⊎ In x ys
  In-append_cases [] ys h = inr h
  In-append_cases (y ∷ xs) ys (inl e) = inl (inl e)
  In-append_cases (y ∷ xs) ys (inr h) = elim (In-append_cases xs ys h) [
    | inl i ↦ inl (inr i)
    | inr i ↦ inr i
  ]

-- A relation of places, and its runs of `n` steps.
abbrev pub Relation : Type 1
Relation = Place → Place → Type 0

abbrev pub Run : Relation → ℕ → Relation
Run R zero p d = p ≡ d
Run R (suc n) p d = (e : Place) × R p e × Run R n e d

-- One character of a set.
abbrev pub OneOf : Unicode → List Item → Relation
OneOf u k p d =
    (c : ℕ) × (t : Text) × (p.after ≡ c ∷ t) × (allowed u k c ≡ true) × (d ≡ place (some c) t)

-- The pattern matches the text from one place to the other.
abbrev pub Matches : Unicode → Regex → Relation
Matches u (one_of k) p d = OneOf u k p d
Matches u (many k m) p d = (n : ℕ) × (m ≤ n) × Run (OneOf u k) n p d
Matches u edge p d = (at_edge u p ≡ true) × (p ≡ d)
Matches u (seq r s) p d = (e : Place) × Matches u r p e × Matches u s e d
Matches u (either r s) p d = Matches u r p d ⊎ Matches u s p d
Matches u (repeat r m k) p d = (n : ℕ) × (n ≤ k) × Run (Matches u r) (m + n) p d
