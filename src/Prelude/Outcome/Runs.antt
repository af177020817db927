-- ===== src/Prelude/Outcome/Runs.antt =====
-- A computation that returns, with what then holds of the value and the state.
use mathlib.Core.Path.{◌≡◌, refl, subst, sym}
use llm_inference_logger.Prelude.Outcome.{ok, Exec, ◌>>=◌, continue, pure}

module _ {S E : Type 0} where
  abbrev pub Runs : {A : Type 0} → Exec S E A → S → (A → S → Type 0) → Type 0
  Runs {A} m s R = (a : A) × ((m s).0 ≡ ok a) × R a (m s).1

  pub pure-Runs : {A : Type 0} (R : A → S → Type 0) (a : A) (s : S) → R a s → Runs (pure a) s R
  pure-Runs R a s h = (a, refl, h)

  pub bind-Runs :
      {A B : Type 0} (R : A → S → Type 0) (Q : B → S → Type 0) (m : Exec S E A) (f : A → Exec S E B)
      (s : S)
      → Runs m s R
      → ((a : A) (t : S) → R a t → Runs (f a) t Q)
      → Runs (m >>= f) s Q
  bind-Runs R Q m f s (a, e, h) k =
      subst (λ r. (b : _) × ((continue r f (m s).1).0 ≡ ok b) × Q b (continue r f (m s).1).1)
        (sym e) (k a (m s).1 h)
