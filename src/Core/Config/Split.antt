-- ===== src/Core/Config/Split.antt =====
-- Where the parts of a URL end.
use llm_inference_logger.Prelude.{
  ℕ, ◌≡◌, refl, ap, Bool, true, false, ◌||◌, [], ◌∷◌, ◌++◌, arith, Text, All,
}
use llm_inference_logger.Core.Config.Client.{
  before_last, after_last, is_stop, past, until, has, is_at, is_colon,
}

-- No character of a text passes a test.
abbrev pub Free : (ℕ → Bool) → Text → Type 0
Free p t = All (λ c. p c ≡ false) t

-- No character of a text ends a part of a URL.
abbrev pub is_delimiter : ℕ → Bool
is_delimiter c = is_stop c || is_at c || is_colon c

pub until-append :
    (p : ℕ → Bool) (xs : Text) (c : ℕ) (t : Text)
    → Free p xs
    → p c ≡ true
    → until p (xs ++ c ∷ t) ≡ xs
unfolding until
until-append p [] c t h e = rw e refl
until-append p (x ∷ xs) c t h e = rw h.0 (ap (◌∷◌ x) (until-append p xs c t h.1 e))

pub past-append :
    (p : ℕ → Bool) (xs : Text) (c : ℕ) (t : Text)
    → Free p xs
    → p c ≡ true
    → past p (xs ++ c ∷ t) ≡ t
unfolding past
past-append p [] c t h e = rw e refl
past-append p (x ∷ xs) c t h e = rw h.0 (past-append p xs c t h.1 e)

pub has-Free : (p : ℕ → Bool) (t : Text) → Free p t → has p t ≡ false
has-Free p [] h = refl
has-Free p (c ∷ t) h = rw (h.0, has-Free p t h.1) refl

pub has-append :
    (p : ℕ → Bool) (xs : Text) (c : ℕ) (t : Text) → p c ≡ true → has p (xs ++ c ∷ t) ≡ true
has-append p [] c t e = rw e refl
has-append p (x ∷ xs) c t e = rw (has-append p xs c t e) (ground arith)

pub before_last-append :
    (p : ℕ → Bool) (xs : Text) (c : ℕ) (t : Text)
    → p c ≡ true
    → Free p t
    → before_last p (xs ++ c ∷ t) ≡ xs
unfolding before_last
before_last-append p [] c t e h = rw (has-Free p t h) refl
before_last-append p (x ∷ xs) c t e h =
    rw (has-append p xs c t e) (ap (◌∷◌ x) (before_last-append p xs c t e h))

pub after_last-append :
    (p : ℕ → Bool) (xs : Text) (c : ℕ) (t : Text)
    → p c ≡ true
    → Free p t
    → after_last p (xs ++ c ∷ t) ≡ t
unfolding after_last
after_last-append p [] c t e h = rw (has-Free p t h, e) refl
after_last-append p (x ∷ xs) c t e h = rw (has-append p xs c t e) (after_last-append p xs c t e h)

pub after_last-Free : (p : ℕ → Bool) (t : Text) → Free p t → after_last p t ≡ t
unfolding after_last
after_last-Free p [] h = refl
after_last-Free p (c ∷ t) h = rw (has-Free p t h.1, h.0) refl
