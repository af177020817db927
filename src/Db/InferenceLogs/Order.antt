-- ===== src/Db/InferenceLogs/Order.antt =====
-- The order of the listings, and what lies behind a cursor.
use llm_inference_logger.Prelude.{
  ℕ, zero, suc, ◌+◌, ◌≤◌, ◌≡◌, refl, ap, ◌∙◌, subst, inl, inr, Bool, true, false, none, some, List,
  [], ◌∷◌, arith, ◌==◌, if◌then◌else◌, Bool-cases, length, take, drop, keep, count, All, last,
  keep-All, All-last, All-take,
}
use llm_inference_logger.Prelude.Order.{order_by}
use llm_inference_logger.Prelude.Order.Laws.{IsOrder, IsOrdered, count-order_by}
use llm_inference_logger.Db.Tables.{InferenceLog, find_log}
use llm_inference_logger.Db.InferenceLogs.{newer}
use llm_inference_logger.Db.InferenceLogs.Laws.{DistinctIds}

pub newer-IsOrder : IsOrder newer
newer-IsOrder = record {
  asym = λ x y h. ground (arith, h);
  trans = λ x y z h k. ground (arith, h, k);
}

-- No two rows have the same id.
abbrev pub IsApart : List InferenceLog → Type 0
IsApart ls = (i : ℕ) → count (λ l. l.id == i) ls ≤ 1

count-absent :
    (i : ℕ) (ls : List InferenceLog) → find_log i ls ≡ none → count (λ l. l.id == i) ls ≡ 0
unfolding find_log
count-absent i [] h = refl
count-absent i (l ∷ ls) h = ground (arith, count-absent i ls)

pub DistinctIds-IsApart : (ls : List InferenceLog) → DistinctIds ls → IsApart ls
DistinctIds-IsApart [] h i = omega arith
DistinctIds-IsApart (l ∷ ls) h i =
    ground (arith, count-absent l.id ls, DistinctIds-IsApart ls h.1 i, h)

count-keep {ℓ} : {A : Type ℓ} (p q : A → Bool) (xs : List A) → count p (keep q xs) ≤ count p xs
count-keep p q [] = omega arith
count-keep p q (x ∷ xs) = elim (Bool-cases (q x)) [
  | inl e ↦ simp e (omega (arith, count-keep p q xs))
  | inr e ↦ simp e (omega (arith, count-keep p q xs))
]

pub keep-IsApart :
    (p : InferenceLog → Bool) (ls : List InferenceLog) → IsApart ls → IsApart (keep p ls)
keep-IsApart p ls h i = omega (arith, count-keep (λ l. l.id == i) p ls, h i)

pub order_by-IsApart : (ls : List InferenceLog) → IsApart ls → IsApart (order_by newer ls)
order_by-IsApart ls h i = omega (arith, count-order_by newer (λ l. l.id == i) ls, h i)

-- The rows behind the first have other ids.
others :
    (i : ℕ) (ls : List InferenceLog)
    → count (λ l. l.id == i) ls ≡ 0
    → All (λ l. (l.id == i) ≡ false) ls
others i [] h = tt
others i (l ∷ ls) h = elim (Bool-cases (l.id == i)) [
  | inl e ↦
      absurd (omega (arith, subst (λ b. (if b then 1 else 0) + count (λ k. k.id == i) ls ≡ 0) e h))
  | inr e ↦ (e, others i ls (omega (arith, h)))
]

behind :
    (x : InferenceLog) (ls : List InferenceLog)
    → All (λ l. newer l x ≡ false) ls
    → All (λ l. (l.id == x.id) ≡ false) ls
    → All (λ l. newer x l ≡ true) ls
behind x [] h k = tt
behind x (l ∷ ls) h k = (ground (arith, h.0, k.0), behind x ls h.1 k.1)

-- The rows of a sorted list that a page leaves are those that its last row is newer than.
pub keep-newer-last :
    (n : ℕ) (ls : List InferenceLog) (x : InferenceLog)
    → IsOrdered newer ls
    → IsApart ls
    → length (take (suc n) ls) ≡ suc n
    → last (take (suc n) ls) ≡ some x
    → keep (newer x) ls ≡ drop (suc n) ls
keep-newer-last n [] x o a full e = absurd (omega arith)
keep-newer-last zero (y ∷ ls) x o a full e =
    let same : y ≡ x = ground arith in
    let fresh : count (λ l. l.id == y.id) ls ≡ 0 = ground (arith, a y.id) in
    let first : newer y y ≡ false = ground arith in
    subst (λ z. keep (newer z) (y ∷ ls) ≡ ls) same
      (simp first (keep-All (newer y) ls (behind y ls o.0 (others y.id ls fresh))))
keep-newer-last (suc n) (y ∷ []) x o a full e = absurd (omega arith)
keep-newer-last (suc n) (y ∷ z ∷ ls) x o a full e =
    let older : newer x y ≡ false =
      All-last (λ l. newer l y ≡ false) (take (suc n) (z ∷ ls)) x
        (All-take (λ l. newer l y ≡ false) (suc n) (z ∷ ls) o.0) e in
    let rest : IsApart (z ∷ ls) = λ i. omega (arith, a i) in
    ap (λ b. if b then y ∷ keep (newer x) (z ∷ ls) else keep (newer x) (z ∷ ls)) older
    ∙ keep-newer-last n (z ∷ ls) x o.1 rest (omega arith) e
