-- ===== src/Instrumentation/Redaction/Replaced.antt =====
-- What `Pattern.sub` leaves: the text with matches replaced, and no match where it copied.
use llm_inference_logger.Prelude.{
  ℕ, zero, suc, ◌+◌, ◌*◌, ◌≤◌, ◌<◌, ◌≡◌, refl, sym, ap, ◌≢◌, inl, inr, Bool, true, false, ◌&&◌,
  Option, none, some, List, [], ◌∷◌, ◌++◌, arith, Text, ◌==◌, if◌then◌else◌, Bool-cases,
  Option-cases, length,
}
use llm_inference_logger.Instrumentation.Redaction.Pattern.{
  edge, Place, Unicode, Regex, first_end, Item, place, one_of, many, seq, either, repeat, match_at,
  sub, scan, start, ends,
}
use llm_inference_logger.Instrumentation.Redaction.Matches.{Relation, Run, In, OneOf, Matches}
use llm_inference_logger.Instrumentation.Redaction.Engine.{ends-Sound, ends-Complete}

-- An empty match is not taken where one was just replaced.
abbrev pub Fresh : Bool → Place → Place → Type 0
Fresh must p d = must ≡ true → length d.after ≢ length p.after

module _ (u : Unicode) (r : Regex) (new : Text) where
  abbrev pub NoMatch : Bool → Place → Type 0
  NoMatch must p = (d : Place) → Matches u r p d → ¬ Fresh must p d

  -- From a place on, the text becomes the text at the end.
  pub data Replaced : Bool → Place → Text → Type 0 where
    at_end :
        (must : Bool) (b : Option ℕ) → NoMatch must (place b []) → Replaced must (place b []) []
    copied :
        (must : Bool) (b : Option ℕ) (c : ℕ) (t out : Text)
        → NoMatch must (place b (c ∷ t))
        → Replaced false (place (some c) t) out
        → Replaced must (place b (c ∷ t)) (c ∷ out)
    replaced :
        (must : Bool) (p d : Place) (out : Text)
        → Matches u r p d
        → Fresh must p d
        → Replaced (length d.after == length p.after) d out
        → Replaced must p (new ++ out)

-- A match ends where the text is no longer.
module _ (R : Relation) (shorter : (p d : Place) → R p d → length d.after ≤ length p.after) where
  Run-shorter : (n : ℕ) (p d : Place) → Run R n p d → length d.after ≤ length p.after
  Run-shorter zero p d e =
      let same : length d.after ≡ length p.after = ap (λ x. length x.after) (sym e) in
      omega (arith, same)
  Run-shorter (suc n) p d (e, first, rest) =
      omega (arith, shorter p e first, Run-shorter n e d rest)

OneOf-shorter :
    (u : Unicode) (k : List Item) (p d : Place) → OneOf u k p d → length d.after ≤ length p.after
OneOf-shorter u k p d (c, t, eq, here, q) =
    let before_it : length p.after ≡ length (c ∷ t) = ap length eq in
    let after_it : length d.after ≡ length t = ap (λ x. length x.after) q in
    omega (arith, before_it, after_it)

Matches-shorter :
    (u : Unicode) (r : Regex) (p d : Place) → Matches u r p d → length d.after ≤ length p.after
Matches-shorter u (one_of k) p d h = OneOf-shorter u k p d h
Matches-shorter u (many k m) p d (n, l, run) = Run-shorter (OneOf u k) (OneOf-shorter u k) n p d run
Matches-shorter u edge p d (e, q) = Run-shorter (OneOf u []) (OneOf-shorter u []) 0 p d q
Matches-shorter u (seq r s) p d (e, first, rest) =
    omega (arith, Matches-shorter u r p e first, Matches-shorter u s e d rest)
Matches-shorter u (either r s) p d (inl h) = Matches-shorter u r p d h
Matches-shorter u (either r s) p d (inr h) = Matches-shorter u s p d h
Matches-shorter u (repeat r m k) p d (n, l, run) =
    Run-shorter (Matches u r) (λ x y. Matches-shorter u r x y) (m + n) p d run

first_end-none :
    (must : Bool) (n : ℕ) (ds : List Place)
    → first_end must n ds ≡ none
    → (d : Place) → In d ds
    → (must ≡ true) × (length d.after ≡ n)
first_end-none must n [] h d i = elim i [ ]
first_end-none must n (e ∷ ds) h d i = elim (Bool-cases (must && length e.after == n)) [
  | inr q ↦ absurd (ground arith)
  | inl q ↦ elim i [
    | inl same ↦ rw same (ground arith)
    | inr j ↦ first_end-none must n ds (ground arith) d j
  ]
]

first_end-some :
    (must : Bool) (n : ℕ) (ds : List Place) (d : Place)
    → first_end must n ds ≡ some d
    → In d ds × (must ≡ true → length d.after ≢ n)
first_end-some must n [] d h = absurd (ground arith)
first_end-some must n (e ∷ ds) d h = elim (Bool-cases (must && length e.after == n)) [
  | inl q ↦ let (i, fresh) = first_end-some must n ds d (ground arith) in (inr i, fresh)
  | inr q ↦ let same : d ≡ e = ground arith in (inl same, rw same (λ m l. ground arith))
]

module _ (u : Unicode) (r : Regex) (new : Text) where
  NoMatch-none : (must : Bool) (p : Place) → match_at u must r p ≡ none → NoMatch u r new must p
  NoMatch-none must p e d m fresh =
      let (is_must, same) =
        first_end-none must (length p.after) (ends u r p) e d (ends-Complete u r p d m) in
      fresh is_must same

  abbrev fuel : Bool → Text → ℕ
  fuel must t = 2 * length t + (if must then 1 else 2)

  -- A fresh match uses up text, or the right to be empty.
  fuel-Fresh :
      (must : Bool) (p d : Place)
      → length d.after ≤ length p.after
      → Fresh must p d
      → fuel (length d.after == length p.after) d.after < fuel must p.after
  fuel-Fresh must p d l fresh = elim (Bool-cases (length d.after == length p.after)) [
    | inr e ↦ rw e (ground arith)
    | inl e ↦ rw e (ground arith)
  ]

  -- Where there is no match: the end, or a character to copy.
  copy_or_end :
      (must : Bool) (b : Option ℕ) (t : Text) (rest : Option ℕ → Text → Text)
      → NoMatch u r new must (place b t)
      → ((c : ℕ) (s : Text)
          → t ≡ c ∷ s
          → Replaced u r new false (place (some c) s) (rest (some c) s))
      → Replaced u r new must (place b t) (elim t [ [] ↦ [] | c ∷ s ↦ c ∷ rest (some c) s ])
  copy_or_end must b [] rest skip h = at_end must b skip
  copy_or_end must b (c ∷ s) rest skip h = copied must b c s _ skip (h c s refl)

  scan-Replaced :
      (n : ℕ) (must : Bool) (b : Option ℕ) (t : Text)
      → fuel must t ≤ n
      → Replaced u r new must (place b t) (scan u n must r new (place b t))
  unfolding scan
  scan-Replaced zero must b t l = absurd (ground arith)
  scan-Replaced (suc n) must b t l = elim (Option-cases (match_at u must r (place b t))) [
    | inr (d, e) ↦
        let (i, fresh) = first_end-some must (length t) (ends u r (place b t)) d e in
        let m : Matches u r (place b t) d = ends-Sound u r (place b t) d i in
        let less = fuel-Fresh must (place b t) d (Matches-shorter u r (place b t) d m) fresh in
        rw (e, scan)
          (replaced must (place b t) d _ m fresh (
            scan-Replaced n (length d.after == length t) d.before d.after (omega (arith, l, less))))
    | inl e ↦
        let skip = NoMatch-none must (place b t) e in
        rw (e, scan)
          (copy_or_end must b t (λ x s. scan u n false r new (place x s)) skip
            λ c s same.
              scan-Replaced n false (some c) s
                (let longer : length t ≡ suc (length s) = ap length same in ground arith))
  ]

  -- Every text has fuel enough.
  pub sub-Replaced : (t : Text) → Replaced u r new false (start t) (sub u r new t)
  unfolding sub
  sub-Replaced t = scan-Replaced (2 * length t + 2) false none t (omega arith)
