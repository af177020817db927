-- ===== src/Prelude/Outcome/Returns.antt =====
-- What holds of a value, if a computation returns one.
use mathlib.Core.Path.{◌≡◌, subst}
use native.Mathlib.Omega.{arith}
use llm_inference_logger.Prelude.Outcome.{Result, ok, err, Exec, ◌>>=◌, >>=-cases}

abbrev pub Returns : {S E A : Type 0} → (A → Type 0) → Result E A × S → Type 0
Returns R (ok a, s) = R a
Returns R (err _, s) = Unit

-- The value of a computation that is known to have returned.
pub Returns-ok :
    {S E A : Type 0} (R : A → Type 0) (x : Result E A × S) (a : A) → Returns R x → x.0 ≡ ok a → R a
Returns-ok R (ok b, s) a h e = let same : b ≡ a = ground (arith, e) in subst R same h
Returns-ok R (err b, s) a h e = absurd (ground (arith, e))

pub bind-Returns :
    {S E A B : Type 0} (R : B → Type 0) (Q : A → Type 0) (m : Exec S E B) (f : B → Exec S E A)
    → ((s : S) → Returns R (m s))
    → ((b : B) → R b → (s : S) → Returns Q (f b s))
    → (s : S) → Returns Q ((m >>= f) s)
bind-Returns R Q m f h k s =
    >>=-cases m f s (Returns Q) (λ e r. tt) (λ b r. k b (Returns-ok R (m s) b (h s) r) (m s).1)

-- Nothing is asked of the first step.
pub then-Returns :
    {S E A B : Type 0} (Q : A → Type 0) (m : Exec S E B) (f : B → Exec S E A)
    → ((b : B) (s : S) → Returns Q (f b s))
    → (s : S) → Returns Q ((m >>= f) s)
then-Returns Q m f k s = >>=-cases m f s (Returns Q) (λ e r. tt) (λ b r. k b (m s).1)
