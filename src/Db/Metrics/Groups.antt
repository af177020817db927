-- ===== src/Db/Metrics/Groups.antt =====
-- Totals over the groups of GROUP BY are the totals over all rows.
use llm_inference_logger.Prelude.{
  ℕ, ◌+◌, ◌≡◌, refl, sym, ap, ◌∙◌, inl, inr, Bool, List, [], ◌∷◌, map, arith, Bool-cases, keep,
  count, All, ℤ, pos, negsuc, ◌+ℤ◌, add_commℤ, add_assocℤ,
}
use llm_inference_logger.Prelude.Order.{order_by, insert_sorted}

-- What a total needs of the addition.
pub record IsSum (M : Type 0) (op : M → M → M) (e : M) : Type 0 where
  pub comm : (x y : M) → op x y ≡ op y x
  pub assoc : (x y z : M) → op (op x y) z ≡ op x (op y z)
  pub unit : (x : M) → op e x ≡ x

pub nat-IsSum : IsSum ℕ (◌+◌) 0
nat-IsSum = record {
  comm = λ x y. omega arith;
  assoc = λ x y z. omega arith;
  unit = λ x. omega arith;
}

unit_ℤ : (x : ℤ) → pos 0 +ℤ x ≡ x
unit_ℤ (pos n) = ap pos (omega arith)
unit_ℤ (negsuc n) = ground arith

pub int-IsSum : IsSum ℤ (◌+ℤ◌) (pos 0)
int-IsSum = record { comm = add_commℤ; assoc = add_assocℤ; unit = unit_ℤ }

module _ {M : Type 0} (op : M → M → M) (e : M) where
  abbrev pub total : {A : Type 0} → (A → M) → List A → M
  total f [] = e
  total f (x ∷ xs) = op (f x) (total f xs)

  pub total-map :
      {A B : Type 0} (f : B → M) (g : A → B) (xs : List A)
      → total f (map g xs) ≡ total (λ x. f (g x)) xs
  total-map f g [] = refl
  total-map f g (x ∷ xs) = ap (op (f (g x))) (total-map f g xs)

  module _ (s : IsSum M op e) where
    swap : (x y z : M) → op x (op y z) ≡ op y (op x z)
    swap x y z = sym (s.assoc x y z) ∙ ap (λ m. op m z) (s.comm x y) ∙ s.assoc y x z

    total-insert_sorted :
        {A : Type 0} (before : A → A → Bool) (f : A → M) (x : A) (xs : List A)
        → total f (insert_sorted before x xs) ≡ op (f x) (total f xs)
    unfolding insert_sorted
    total-insert_sorted before f x [] = refl
    total-insert_sorted before f x (y ∷ ys) = elim (Bool-cases (before y x)) [
      | inl h ↦
          rw h (ap (op (f y)) (total-insert_sorted before f x ys) ∙ swap (f y) (f x) (total f ys))
      | inr h ↦ rw h refl
    ]

    pub total-order_by :
        {A : Type 0} (before : A → A → Bool) (f : A → M) (xs : List A)
        → total f (order_by before xs) ≡ total f xs
    unfolding order_by
    total-order_by before f [] = refl
    total-order_by before f (x ∷ xs) =
        total-insert_sorted before f x (order_by before xs)
        ∙ ap (op (f x)) (total-order_by before f xs)

    module _ {A K : Type 0} (same : K → K → Bool) (key : A → K) (f : A → M) where
      -- The total of the group of a key, and that of the groups of several keys.
      abbrev group_total : List A → K → M
      group_total xs k = total f (keep (λ x. same k (key x)) xs)

      skip-group :
          (ds : List K) (x : A) (xs : List A)
          → count (λ k. same k (key x)) ds ≡ 0
          → total (group_total (x ∷ xs)) ds ≡ total (group_total xs) ds
      skip-group [] x xs h = refl
      skip-group (d ∷ ds) x xs h = elim (Bool-cases (same d (key x))) [
        | inl c ↦ absurd (ground (arith, c, h))
        | inr c ↦ simp c (ap (op (group_total xs d)) (skip-group ds x xs (ground (arith, c, h))))
      ]

      add-group :
          (ds : List K) (x : A) (xs : List A)
          → count (λ k. same k (key x)) ds ≡ 1
          → total (group_total (x ∷ xs)) ds ≡ op (f x) (total (group_total xs) ds)
      add-group [] x xs h = absurd (omega arith)
      add-group (d ∷ ds) x xs h = elim (Bool-cases (same d (key x))) [
        | inl c ↦ simp c (
            ap (op (op (f x) (group_total xs d))) (skip-group ds x xs (ground (arith, c, h)))
            ∙ s.assoc (f x) (group_total xs d) (total (group_total xs) ds))
        | inr c ↦ simp c (
            ap (op (group_total xs d)) (add-group ds x xs (ground (arith, c, h)))
            ∙ swap (group_total xs d) (f x) (total (group_total xs) ds))
      ]

      no-groups : (ds : List K) → total (group_total []) ds ≡ e
      no-groups [] = refl
      no-groups (d ∷ ds) = s.unit (total (group_total []) ds) ∙ no-groups ds

      -- Where every row is in the group of exactly one key, the groups' totals add up.
      pub total-groups :
          (ds : List K) (xs : List A)
          → All (λ x. count (λ k. same k (key x)) ds ≡ 1) xs
          → total (group_total xs) ds ≡ total f xs
      total-groups ds [] h = no-groups ds
      total-groups ds (x ∷ xs) h = add-group ds x xs h.0 ∙ ap (op (f x)) (total-groups ds xs h.1)
