-- ===== src/Prelude/Outcome.antt =====
-- A computation that keeps state and may raise. What was written before a raise stays written,
-- so the state comes back beside the exception too.

pub mod Returns
pub mod Runs
use mathlib.Core.Path.{◌≡◌, refl}
use native.Mathlib.Omega.{arith}
use mathlib.Core.Bool.{Bool, true, false}

pub data Result {ℓ κ} (E : Type ℓ) (A : Type κ) : Type (ℓ ⊔ κ) where
  ok : A → Result E A
  err : E → Result E A

-- Whether a computation returned.
abbrev pub is_ok {ℓ κ} : {E : Type ℓ} {A : Type κ} → Result E A → Bool
is_ok (ok _) = true
is_ok (err _) = false

abbrev pub Exec : Type 0 → Type 0 → Type 0 → Type 0
Exec S E A = S → Result E A × S

module _ {S E A : Type 0} where
  abbrev pub pure : A → Exec S E A
  pure a s = (ok a, s)

  abbrev pub raise : E → Exec S E A
  raise e s = (err e, s)

  abbrev pub gets : (S → A) → Exec S E A
  gets f s = (ok (f s), s)

abbrev pub modify : {S E : Type 0} → (S → S) → Exec S E (Unit {0})
modify f s = (ok tt, f s)

module _ {S E A B : Type 0} where
  abbrev pub continue : Result E A → (A → Exec S E B) → Exec S E B
  continue (ok a) f s = f a s
  continue (err e) f s = (err e, s)

  infixl 5 ◌>>=◌ ◌>>◌
  abbrev pub ◌>>=◌ : Exec S E A → (A → Exec S E B) → Exec S E B
  ◌>>=◌ m f s = let (r, s') = m s in continue r f s'

  abbrev pub ◌>>◌ : Exec S E A → Exec S E B → Exec S E B
  m >> n = m >>= λ _. n

-- What holds of a chain, by how its first step ended.
module _ {κ} {S E A B : Type 0} (m : Exec S E A) (f : A → Exec S E B) (s : S)
    (Q : Result E B × S → Type κ) where
  pub >>=-cases :
      ((e : E) → (m s).0 ≡ err e → Q (err e, (m s).1))
      → ((a : A) → (m s).0 ≡ ok a → Q (f a (m s).1))
      → Q ((m >>= f) s)
  >>=-cases raised returned = at (m s).0 refl
    where
      at : (r : Result E A) → (m s).0 ≡ r → Q (continue r f (m s).1)
      at (ok a) e = returned a e
      at (err x) e = raised x e

  -- A chain that returned went through its first step, and is the rest of it from there.
  pub >>=-returns :
      is_ok ((m >>= f) s).0 ≡ true
      → ((a : A) → (m s).0 ≡ ok a → is_ok (f a (m s).1).0 ≡ true → Q (f a (m s).1))
      → Q ((m >>= f) s)
  >>=-returns h returned = at (m s).0 refl h
    where
      at :
          (r : Result E A)
          → (m s).0 ≡ r
          → is_ok (continue r f (m s).1).0 ≡ true
          → Q (continue r f (m s).1)
      at (ok a) e k = returned a e k
      at (err x) e k = absurd (ground (arith, k))

-- What follows a result that returned.
abbrev pub bind {ℓ κ μ} :
    {E : Type ℓ} {A : Type κ} {B : Type μ} → Result E A → (A → Result E B) → Result E B
bind (ok a) f = f a
bind (err e) f = err e
