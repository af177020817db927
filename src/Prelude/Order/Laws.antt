-- ===== src/Prelude/Order/Laws.antt =====
-- Sorting by a strict order: the rows come out in order, each once, and a filter may be applied
-- before or after.
use mathlib.Core.Path.{◌≡◌, refl, sym, ap, ◌∙◌}
use mathlib.Core.Bool.{Bool, true, false}
use mathlib.Core.Logic.{inl, inr}
use mathlib.Core.List.{List, [], ◌∷◌}
use native.Mathlib.Omega.{arith}
use llm_inference_logger.Prelude.Tests.{if◌then◌else◌, Bool-cases}
use llm_inference_logger.Prelude.Lists.{All-keep, length, keep, All, count}
use llm_inference_logger.Prelude.Order.{insert_sorted, order_by}
use llm_inference_logger.Prelude.{suc}

-- What sorting needs of the order: not both ways, and a row that is not after the first is not
-- after the second where the first is not.
pub record IsOrder {ℓ} {A : Type ℓ} (before : A → A → Bool) : Type ℓ where
  pub asym : (x y : A) → before x y ≡ true → before y x ≡ false
  pub trans : (x y z : A) → before y x ≡ false → before z y ≡ false → before z x ≡ false

module _ {ℓ} {A : Type ℓ} (before : A → A → Bool) where
  -- No row is before one that stands in front of it.
  abbrev pub IsOrdered : List A → Type 0
  IsOrdered [] = Unit
  IsOrdered (x ∷ xs) = All (λ y. before y x ≡ false) xs × IsOrdered xs

  insert_sorted-All {κ} :
      (P : A → Type κ) (x : A) (ys : List A) → P x → All P ys → All P (insert_sorted before x ys)
  unfolding insert_sorted
  insert_sorted-All P x [] h k = (h, tt)
  insert_sorted-All P x (y ∷ ys) h k = elim (Bool-cases (before y x)) [
    | inl e ↦ rw e (k.0, insert_sorted-All P x ys h k.1)
    | inr e ↦ rw e (h, k)
  ]

  pub order_by-All {κ} : (P : A → Type κ) (xs : List A) → All P xs → All P (order_by before xs)
  unfolding order_by
  order_by-All P [] h = tt
  order_by-All P (x ∷ xs) h = insert_sorted-All P x (order_by before xs) h.0 (order_by-All P xs h.1)

  length-insert_sorted :
      (x : A) (ys : List A) → length (insert_sorted before x ys) ≡ suc (length ys)
  unfolding insert_sorted
  length-insert_sorted x [] = refl
  length-insert_sorted x (y ∷ ys) = elim (Bool-cases (before y x)) [
    | inl e ↦ rw e (ap suc (length-insert_sorted x ys))
    | inr e ↦ rw e refl
  ]

  pub length-order_by : (xs : List A) → length (order_by before xs) ≡ length xs
  unfolding order_by
  length-order_by [] = refl
  length-order_by (x ∷ xs) =
      length-insert_sorted x (order_by before xs) ∙ ap suc (length-order_by xs)

  -- Every condition holds of as many rows as before.
  count-insert_sorted :
      (p : A → Bool) (x : A) (ys : List A) → count p (insert_sorted before x ys) ≡ count p (x ∷ ys)
  unfolding insert_sorted
  count-insert_sorted p x [] = refl
  count-insert_sorted p x (y ∷ ys) = elim (Bool-cases (before y x)) [
    | inl e ↦ rw e (omega (arith, count-insert_sorted p x ys))
    | inr e ↦ rw e refl
  ]

  pub count-order_by : (p : A → Bool) (xs : List A) → count p (order_by before xs) ≡ count p xs
  unfolding order_by
  count-order_by p [] = refl
  count-order_by p (x ∷ xs) =
      omega (arith, count-insert_sorted p x (order_by before xs), count-order_by p xs)

  module _ (o : IsOrder before) where
    weaken :
        (x y : A) (zs : List A)
        → before y x ≡ false
        → All (λ z. before z y ≡ false) zs
        → All (λ z. before z x ≡ false) zs
    weaken x y [] h k = tt
    weaken x y (z ∷ zs) h k = (o.trans x y z h k.0, weaken x y zs h k.1)

    insert_sorted-IsOrdered :
        (x : A) (ys : List A) → IsOrdered ys → IsOrdered (insert_sorted before x ys)
    unfolding insert_sorted
    insert_sorted-IsOrdered x [] h = (tt, tt)
    insert_sorted-IsOrdered x (y ∷ ys) h = elim (Bool-cases (before y x)) [
      | inl e ↦ rw e (
        insert_sorted-All (λ z. before z y ≡ false) x ys (o.asym y x e) h.0,
        insert_sorted-IsOrdered x ys h.1,
      )
      | inr e ↦ rw e ((e, weaken x y ys e h.0), h)
    ]

    pub order_by-IsOrdered : (xs : List A) → IsOrdered (order_by before xs)
    unfolding order_by
    order_by-IsOrdered [] = tt
    order_by-IsOrdered (x ∷ xs) =
        insert_sorted-IsOrdered x (order_by before xs) (order_by-IsOrdered xs)

    pub keep-IsOrdered : (p : A → Bool) (xs : List A) → IsOrdered xs → IsOrdered (keep p xs)
    keep-IsOrdered p [] h = tt
    keep-IsOrdered p (x ∷ xs) h = elim (Bool-cases (p x)) [
      | inl e ↦ simp e (All-keep (λ y. before y x ≡ false) p xs h.0, keep-IsOrdered p xs h.1)
      | inr e ↦ simp e (keep-IsOrdered p xs h.1)
    ]

    -- A row that no row of the list is before goes to the front.
    insert_sorted-front :
        (x : A) (ys : List A)
        → All (λ y. before y x ≡ false) ys
        → insert_sorted before x ys ≡ x ∷ ys
    unfolding insert_sorted
    insert_sorted-front x [] h = refl
    insert_sorted-front x (y ∷ ys) h = rw h.0 refl

    keep-insert_sorted :
        (p : A → Bool) (x : A) (ys : List A)
        → IsOrdered ys
        → keep p (insert_sorted before x ys)
          ≡ (if p x then insert_sorted before x (keep p ys) else keep p ys)
    unfolding insert_sorted
    keep-insert_sorted p x [] h = refl
    keep-insert_sorted p x (y ∷ ys) h = elim (Bool-cases (before y x)) [
      | inl b ↦ elim (Bool-cases (p x)) [
        | inl a ↦
            let ih =
              keep-insert_sorted p x ys h.1
              ∙ ap (λ c. if c then insert_sorted before x (keep p ys) else keep p ys) a in
            elim (Bool-cases (p y)) [
              | inl c ↦ simp (a, b, c) (ap (◌∷◌ y) ih)
              | inr c ↦ simp (a, b, c) ih
            ]
        | inr a ↦
            let ih =
              keep-insert_sorted p x ys h.1
              ∙ ap (λ c. if c then insert_sorted before x (keep p ys) else keep p ys) a in
            elim (Bool-cases (p y)) [
              | inl c ↦ simp (a, b, c) (ap (◌∷◌ y) ih)
              | inr c ↦ simp (a, b, c) ih
            ]
      ]
      | inr b ↦ elim (Bool-cases (p x)) [
        | inl a ↦
            ap (keep p) (ap (λ c. if c then y ∷ insert_sorted before x ys else x ∷ y ∷ ys) b)
            ∙ ap (λ c. if c then x ∷ keep p (y ∷ ys) else keep p (y ∷ ys)) a
            ∙ sym (
                insert_sorted-front x (keep p (y ∷ ys))
                  (All-keep (λ z. before z x ≡ false) p (y ∷ ys) (b, weaken x y ys b h.0)))
            ∙ sym (
                ap (λ c. if c then insert_sorted before x (keep p (y ∷ ys)) else keep p (y ∷ ys)) a)
        | inr a ↦ simp (a, b)
      ]
    ]

    -- A filter may be applied before the rows are sorted or after.
    pub keep-order_by :
        (p : A → Bool) (xs : List A) → order_by before (keep p xs) ≡ keep p (order_by before xs)
    unfolding order_by
    keep-order_by p [] = refl
    keep-order_by p (x ∷ xs) =
        let s = keep-insert_sorted p x (order_by before xs) (order_by-IsOrdered xs) in
        elim (Bool-cases (p x)) [
          | inl e ↦
              ap (order_by before) (ap (λ c. if c then x ∷ keep p xs else keep p xs) e)
              ∙ ap (insert_sorted before x) (keep-order_by p xs)
              ∙ sym (
                  s
                  ∙ ap
                      (λ c.
                        if c
                        then insert_sorted before x (keep p (order_by before xs))
                        else keep p (order_by before xs))
                      e)
          | inr e ↦
              ap (order_by before) (ap (λ c. if c then x ∷ keep p xs else keep p xs) e)
              ∙ keep-order_by p xs
              ∙ sym (
                  s
                  ∙ ap
                      (λ c.
                        if c
                        then insert_sorted before x (keep p (order_by before xs))
                        else keep p (order_by before xs))
                      e)
        ]
