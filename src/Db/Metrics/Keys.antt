-- ===== src/Db/Metrics/Keys.antt =====
-- Each key that occurs is among the groups exactly once.
use llm_inference_logger.Prelude.{
  ◌+◌, ◌≡◌, refl, sym, ap, ◌∙◌, ◌↔◌, inl, inr, Bool, true, false, not, List, [], ◌∷◌, arith, str_eq,
  str_eq_iff, ◌==◌, if◌then◌else◌, Bool-cases, keep, count, All, ==_iff, All-map,
}
use llm_inference_logger.Db.Metrics.{distinct, same_model}

-- What GROUP BY needs of the equality of keys.
abbrev pub IsEquality : {K : Type 0} → (K → K → Bool) → Type 0
IsEquality {K} same = (j k : K) → (same j k ≡ true) ↔ (j ≡ k)

pub nat-IsEquality : IsEquality (◌==◌)
nat-IsEquality j k = ==_iff j k

pub model-IsEquality : IsEquality same_model
model-IsEquality (j0, j1) (k0, k1) = (
  λ h.
      let e : str_eq j0 k0 ≡ true = ground (arith, h) in
      let f : str_eq j1 k1 ≡ true = ground (arith, h) in
      ap (λ s. (s, j1)) ((str_eq_iff j0 k0).0 e) ∙ ap (λ s. (k0, s)) ((str_eq_iff j1 k1).0 f),
  λ h.
      let e : str_eq j0 k0 ≡ true = (str_eq_iff j0 k0).1 (ap (λ k. k.0) h) in
      let f : str_eq j1 k1 ≡ true = (str_eq_iff j1 k1).1 (ap (λ k. k.1) h) in ground (arith, e, f),
)

module _ {K : Type 0} (same : K → K → Bool) (eq : IsEquality same) where
  refl_same : (k : K) → same k k ≡ true
  refl_same k = (eq k k).1 refl

  trans_same : (i j k : K) → same i j ≡ true → same j k ≡ true → same i k ≡ true
  trans_same i j k g h = (eq i k).1 ((eq i j).0 g ∙ (eq j k).0 h)

  sym_same : (j k : K) → same j k ≡ true → same k j ≡ true
  sym_same j k h = (eq k j).1 (sym ((eq j k).0 h))

  -- Removing the keys like `k` removes all that are like a key like `k`, and no other.
  removed :
      (k j : K) (ds : List K)
      → same k j ≡ true
      → count (λ d. same d j) (keep (λ d. not (same k d)) ds) ≡ 0
  removed k j [] h = refl
  removed k j (d ∷ ds) h = elim (Bool-cases (same k d)) [
    | inl c ↦ simp c (removed k j ds h)
    | inr c ↦ elim (Bool-cases (same d j)) [
      | inl g ↦ absurd (ground (arith, c, trans_same k j d h (sym_same d j g)))
      | inr g ↦ simp (c, g) (omega (arith, removed k j ds h))
    ]
  ]

  kept :
      (k j : K) (ds : List K)
      → same k j ≡ false
      → count (λ d. same d j) (keep (λ d. not (same k d)) ds) ≡ count (λ d. same d j) ds
  kept k j [] h = refl
  kept k j (d ∷ ds) h = elim (Bool-cases (same k d)) [
    | inl c ↦ elim (Bool-cases (same d j)) [
      | inl g ↦ absurd (ground (arith, h, trans_same k d j c g))
      | inr g ↦ simp (c, g) (omega (arith, kept k j ds h))
    ]
    | inr c ↦ simp c (ap (λ n. (if same d j then 1 else 0) + n) (kept k j ds h))
  ]

  pub distinct-once : (ks : List K) → All (λ j. count (λ d. same d j) (distinct same ks) ≡ 1) ks
  unfolding distinct
  distinct-once [] = tt
  distinct-once (k ∷ ks) = (
    simp (refl_same k) (omega (arith, removed k k (distinct same ks) (refl_same k))),
    All-map (λ j. count (λ d. same d j) (distinct same ks) ≡ 1)
        (λ j. count (λ d. same d j) (distinct same (k ∷ ks)) ≡ 1) ks
        (λ j h. elim (Bool-cases (same k j)) [
          | inl c ↦ simp c (omega (arith, removed k j (distinct same ks) c))
          | inr c ↦ simp c (omega (arith, kept k j (distinct same ks) c, h))
        ])
        (distinct-once ks),
  )
