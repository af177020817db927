-- ===== src/Instrumentation/Redaction/Engine.antt =====
-- The backtracking engine of Instrumentation/Redaction/Pattern.antt finds exactly the matches that
-- Instrumentation/Redaction/Matches.antt describes.
use llm_inference_logger.Prelude.{
  ℕ, zero, suc, ◌+◌, ◌-◌, ◌≤◌, ◌≡◌, refl, sym, subst, inl, inr, Bool, true, false, Option, some,
  List, [], ◌∷◌, ◌++◌, arith, Text, if◌then◌else◌, Bool-cases,
}
use llm_inference_logger.Instrumentation.Redaction.Pattern.{
  edge, Place, Unicode, many_ends, flat_map, Item, up_to, times, place, ends, stop, allowed, Regex,
  one_of, many, at_edge, seq, either, repeat, one_ends,
}
use llm_inference_logger.Instrumentation.Redaction.Matches.{
  Relation, Run, In, In-append_right, OneOf, In-append_cases, In-append_left, Matches,
}

-- A list of ends that lists exactly what a relation allows.
abbrev Sound : Relation → (Place → List Place) → Type 0
Sound R f = (p d : Place) → In d (f p) → R p d

abbrev Complete : Relation → (Place → List Place) → Type 0
Complete R f = (p d : Place) → R p d → In d (f p)

In-flat_map :
    (f : Place → List Place) (xs : List Place) (e d : Place)
    → In e xs
    → In d (f e)
    → In d (flat_map f xs)
In-flat_map f [] e d i h = elim i [ ]
In-flat_map f (x ∷ xs) e d (inl eq) h = In-append_left d (f x) _ (subst (λ y. In d (f y)) eq h)
In-flat_map f (x ∷ xs) e d (inr i) h = In-append_right d (f x) _ (In-flat_map f xs e d i h)

In-flat_map_cases :
    (f : Place → List Place) (xs : List Place) (d : Place)
    → In d (flat_map f xs)
    → (e : Place) × In e xs × In d (f e)
In-flat_map_cases f [] d h = elim h [ ]
In-flat_map_cases f (x ∷ xs) d h = elim (In-append_cases d (f x) _ h) [
  | inl i ↦ (x, inl refl, i)
  | inr i ↦ let (e, j, k) = In-flat_map_cases f xs d i in (e, inr j, k)
]

module _ (R : Relation) (f : Place → List Place) where
  up_to-Sound :
      Sound R f → (k : ℕ) (p d : Place) → In d (up_to f k p) → (n : ℕ) × (n ≤ k) × Run R n p d
  up_to-Sound s zero p d (inl e) = (0, omega arith, sym e)
  up_to-Sound s zero p d (inr h) = elim h [ ]
  up_to-Sound s (suc k) p d h = elim (In-append_cases d (flat_map (up_to f k) (f p)) _ h) [
    | inl i ↦
        let (e, j, l) = In-flat_map_cases (up_to f k) (f p) d i in
        let (n, b, run) = up_to-Sound s k e d l in (suc n, omega (arith, b), (e, s p e j, run))
    | inr i ↦ elim i [ inl e ↦ (0, omega arith, sym e) | inr no_more ↦ absurd no_more ]
  ]

  up_to-Complete : Complete R f → (k n : ℕ) (p d : Place) → n ≤ k → Run R n p d → In d (up_to f k p)
  up_to-Complete s zero zero p d h r = inl (sym r)
  up_to-Complete s zero (suc n) p d h r = elim h [ ]
  up_to-Complete s (suc k) zero p d h r =
      In-append_right d (flat_map (up_to f k) (f p)) _ (inl (sym r))
  up_to-Complete s (suc k) (suc n) p d h (e, first, rest) =
      In-append_left d (flat_map (up_to f k) (f p)) _ (
        In-flat_map (up_to f k) (f p) e d (s p e first)
          (up_to-Complete s k n e d (omega (arith, h)) rest))

  times-Sound :
      Sound R f
      → (m k : ℕ) (p d : Place) → In d (times f m k p)
      → (n : ℕ) × (n ≤ k) × Run R (m + n) p d
  times-Sound s zero k p d h =
      let (n, b, run) = up_to-Sound s k p d h in
      let e : n ≡ 0 + n = omega arith in (n, b, subst (λ i. Run R i p d) e run)
  times-Sound s (suc m) k p d h =
      let (e, j, l) = In-flat_map_cases (times f m k) (f p) d h in
      let (n, b, run) = times-Sound s m k e d l in
      let eq : suc (m + n) ≡ suc m + n = omega arith in
      let whole : Run R (suc (m + n)) p d = (e, s p e j, run) in
      (n, b, subst (λ i. Run R i p d) eq whole)

  times-Complete :
      Complete R f → (m k n : ℕ) (p d : Place) → n ≤ k → Run R (m + n) p d → In d (times f m k p)
  times-Complete s zero k n p d h r =
      let e : 0 + n ≡ n = omega arith in up_to-Complete s k n p d h (subst (λ i. Run R i p d) e r)
  times-Complete s (suc m) k n p d h r =
      let eq : suc m + n ≡ suc (m + n) = omega arith in
      let (e, first, rest) =
        (let run : Run R (suc (m + n)) p d = subst (λ i. Run R i p d) eq r in run) in
      In-flat_map (times f m k) (f p) e d (s p e first) (times-Complete s m k n e d h rest)

stop-Run : (R : Relation) (m : ℕ) (p d : Place) → In d (stop m p) → (n : ℕ) × (m ≤ n) × Run R n p d
stop-Run R zero p d (inl e) = (0, omega arith, sym e)
stop-Run R zero p d (inr h) = elim h [ ]
stop-Run R (suc m) p d h = elim h [ ]

module _ (u : Unicode) (k : List Item) where
  many_ends-Sound :
      (m : ℕ) (b : Option ℕ) (t : Text) (d : Place)
      → In d (many_ends u k m b t)
      → (n : ℕ) × (m ≤ n) × Run (OneOf u k) n (place b t) d
  unfolding many_ends
  many_ends-Sound m b [] d h = stop-Run (OneOf u k) m _ d h
  many_ends-Sound m b (c ∷ t) d h =
      let more = many_ends u k (m - 1) (some c) t in
      let last_try = stop m (place b (c ∷ t)) in
      elim (Bool-cases (allowed u k c)) [
        | inr e ↦
            stop-Run (OneOf u k) m _ d
              (subst (λ x. In d ((if x then more else []) ++ last_try)) e h)
        | inl e ↦
            elim (In-append_cases d more last_try
              (subst (λ x. In d ((if x then more else []) ++ last_try)) e h)) [
                | inl i ↦
                    let (n, l, run) = many_ends-Sound (m - 1) (some c) t d i in
                    (suc n, omega (arith, l), (place (some c) t, (c, t, refl, e, refl), run))
                | inr i ↦ stop-Run (OneOf u k) m _ d i
              ]
      ]

  many_ends-Complete :
      (m n : ℕ) (b : Option ℕ) (t : Text) (d : Place)
      → m ≤ n
      → Run (OneOf u k) n (place b t) d
      → In d (many_ends u k m b t)
  unfolding many_ends
  many_ends-Complete zero zero b [] d l r = inl (sym r)
  many_ends-Complete (suc m) zero b t d l r = elim l [ ]
  many_ends-Complete m (suc n) b [] d l (e, (c, t, eq, _, _), r) = absurd (ground arith)
  many_ends-Complete zero zero b (c ∷ t) d l r =
      In-append_right d (if allowed u k c then many_ends u k 0 (some c) t else []) _ (inl (sym r))
  many_ends-Complete m (suc n) b (c ∷ t) d l (e, (c', t', eq, here, at_e), r) =
      let same : c' ≡ c = ground arith in
      let rest : t' ≡ t = ground arith in
      let at_place : e ≡ place (some c) t = ground arith in
      let here' : allowed u k c ≡ true = subst (λ x. allowed u k x ≡ true) same here in
      let run = subst (λ x. Run (OneOf u k) n x d) at_place r in
      rw here' (
        In-append_left d (many_ends u k (m - 1) (some c) t) _
          (many_ends-Complete (m - 1) n (some c) t d (omega (arith, l)) run))

-- A list that holds one place or none.
In-if : (b : Bool) (p d : Place) → In d (if b then p ∷ [] else []) → (b ≡ true) × (p ≡ d)
In-if true p d (inl q) = (refl, sym q)
In-if true p d (inr h) = elim h [ ]
In-if false p d h = elim h [ ]

module _ (u : Unicode) (k : List Item) where
  one_ends-Sound :
      (b : Option ℕ) (t : Text) (d : Place)
      → In d (one_ends u k (place b t))
      → OneOf u k (place b t) d
  one_ends-Sound b [] d h = elim h [ ]
  one_ends-Sound b (c ∷ t) d h =
      let (here, q) = In-if (allowed u k c) (place (some c) t) d h in (c, t, refl, here, sym q)

  one_ends-Complete :
      (b : Option ℕ) (t : Text) (d : Place)
      → OneOf u k (place b t) d
      → In d (one_ends u k (place b t))
  one_ends-Complete b [] d (c, t, eq, here, q) = absurd (ground arith)
  one_ends-Complete b (c ∷ t) d (c', t', eq, here, q) =
      let here' : allowed u k c ≡ true = subst (λ x. allowed u k x ≡ true) (ground arith) here in
      let at_place : d ≡ place (some c) t = ground arith in rw here' (inl at_place)

module _ (u : Unicode) where
  pub ends-Sound : (r : Regex) (p d : Place) → In d (ends u r p) → Matches u r p d
  unfolding ends
  ends-Sound (one_of k) p d h = one_ends-Sound u k p.before p.after d h
  ends-Sound (many k m) p d h = many_ends-Sound u k m p.before p.after d h
  ends-Sound edge p d h = In-if (at_edge u p) p d h
  ends-Sound (seq r s) p d h =
      let (e, i, j) = In-flat_map_cases (ends u s) (ends u r p) d h in
      (e, ends-Sound r p e i, ends-Sound s e d j)
  ends-Sound (either r s) p d h = elim (In-append_cases d (ends u r p) (ends u s p) h) [
    | inl i ↦ inl (ends-Sound r p d i)
    | inr i ↦ inr (ends-Sound s p d i)
  ]
  ends-Sound (repeat r m k) p d h =
      times-Sound (Matches u r) (ends u r) (λ x y. ends-Sound r x y) m k p d h

  pub ends-Complete : (r : Regex) (p d : Place) → Matches u r p d → In d (ends u r p)
  unfolding ends
  ends-Complete (one_of k) p d h = one_ends-Complete u k p.before p.after d h
  ends-Complete (many k m) p d (n, l, run) = many_ends-Complete u k m n p.before p.after d l run
  ends-Complete edge p d (e, q) = rw e (inl (sym q))
  ends-Complete (seq r s) p d (e, first, rest) =
      In-flat_map (ends u s) (ends u r p) e d (ends-Complete r p e first) (ends-Complete s e d rest)
  ends-Complete (either r s) p d (inl h) =
      In-append_left d (ends u r p) (ends u s p) (ends-Complete r p d h)
  ends-Complete (either r s) p d (inr h) =
      In-append_right d (ends u r p) (ends u s p) (ends-Complete s p d h)
  ends-Complete (repeat r m k) p d (n, l, run) =
      times-Complete (Matches u r) (ends u r) (λ x y. ends-Complete r x y) m k n p d l run
