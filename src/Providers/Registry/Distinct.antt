-- ===== src/Providers/Registry/Distinct.antt =====
-- A registry of providers whose names are distinct holds each of them.
use llm_inference_logger.Prelude.{
  String, ◌≡◌, refl, sym, ap, ◌∙◌, subst, inl, inr, Bool, false, none, some, List, [], ◌∷◌, ◌++◌,
  append-nil, append_assoc, arith, str_eq, str_eq_iff, if◌then◌else◌, Bool-cases, keep, All,
  All-keep,
}
use llm_inference_logger.Providers.Base.{Provider}
use llm_inference_logger.Providers.Registry.{register_all, find_provider, register}

-- Every later provider has another name.
abbrev pub Distinct : List Provider → Type 0
Distinct [] = Unit
Distinct (p ∷ ps) = All (λ q. str_eq p.name q.name ≡ false) ps × Distinct ps

register-new :
    (ps : List Provider) (p : Provider)
    → All (λ q. str_eq q.name p.name ≡ false) ps
    → register ps p ≡ ps ++ p ∷ []
register-new [] p h = refl
register-new (q ∷ qs) p h = rw h.0 (ap (◌∷◌ q) (register-new qs p h.1))

All-middle :
    (P : Provider → Type 0) (ps qs : List Provider) (c : Provider) → All P (ps ++ c ∷ qs) → P c
All-middle P [] qs c h = h.0
All-middle P (p ∷ ps) qs c h = All-middle P ps qs c h.1

Distinct-before :
    (ps qs : List Provider) (c : Provider)
    → Distinct (ps ++ c ∷ qs)
    → All (λ p. str_eq p.name c.name ≡ false) ps
Distinct-before [] qs c h = tt
Distinct-before (p ∷ ps) qs c h = (All-middle _ ps qs c h.0, Distinct-before ps qs c h.1)

-- Nothing is lost where the names are distinct.
pub register_all-Distinct :
    (ps cs : List Provider) → Distinct (ps ++ cs) → register_all ps cs ≡ ps ++ cs
register_all-Distinct ps [] h = sym (append-nil ps)
register_all-Distinct ps (c ∷ cs) h =
    let one = register-new ps c (Distinct-before ps cs c h) in
    let regroup : (ps ++ c ∷ []) ++ cs ≡ ps ++ c ∷ cs = append_assoc ps (c ∷ []) cs in
    ap (λ qs. register_all qs cs) one
    ∙ register_all-Distinct (ps ++ c ∷ []) cs (subst Distinct (sym regroup) h)
    ∙ regroup

pub keep-Distinct : (f : Provider → Bool) (ps : List Provider) → Distinct ps → Distinct (keep f ps)
keep-Distinct f [] h = tt
keep-Distinct f (p ∷ ps) h = elim (Bool-cases (f p)) [
  | inl e ↦ simp e (All-keep _ f ps h.0, keep-Distinct f ps h.1)
  | inr e ↦ simp e (keep-Distinct f ps h.1)
]

-- What asking a list for the name of one of them gives.
abbrev pub Gives : List Provider → Provider → Type 0
Gives ps p = find_provider p.name ps ≡ (if p.is_configured then some p else none)

find_provider-none :
    (n : String) (ps : List Provider)
    → All (λ q. str_eq n q.name ≡ false) ps
    → find_provider n ps ≡ none
find_provider-none n [] h = refl
find_provider-none n (q ∷ qs) h =
    ground (arith, h.0, str_eq_iff n q.name, str_eq_iff q.name n, find_provider-none n qs h.1)

Gives-next :
    (p : Provider) (ps qs : List Provider)
    → All (λ q. str_eq p.name q.name ≡ false) qs
    → All (Gives ps) qs
    → All (Gives (p ∷ ps)) qs
Gives-next p ps [] a h = tt
Gives-next p ps (q ∷ qs) a h = (rw a.0 h.0, Gives-next p ps qs a.1 h.1)

pub find_provider-Gives :
    (ps : List Provider) → Distinct ps → All (Gives (keep (λ p. p.is_configured) ps)) ps
find_provider-Gives [] h = tt
find_provider-Gives (p ∷ ps) h =
    let rest = find_provider-Gives ps h.1 in
    let on = λ (q : Provider). q.is_configured in
    elim (Bool-cases p.is_configured) [
      | inl e ↦
          let kept : keep on (p ∷ ps) ≡ p ∷ keep on ps = simp e in
          let first : Gives (p ∷ keep on ps) p = ground (arith, e, str_eq_iff p.name p.name) in
          subst (λ qs. All (Gives qs) (p ∷ ps)) (sym kept)
            (first, Gives-next p (keep on ps) ps h.0 rest)
      | inr e ↦
          let kept : keep on (p ∷ ps) ≡ keep on ps = simp e in
          let first : Gives (keep on ps) p =
            find_provider-none p.name (keep on ps) (All-keep _ on ps h.0) ∙ ground (arith, e) in
          subst (λ qs. All (Gives qs) (p ∷ ps)) (sym kept) (first, rest)
    ]
