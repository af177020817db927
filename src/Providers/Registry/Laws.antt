-- ===== src/Providers/Registry/Laws.antt =====
-- What a request resolves to.
use llm_inference_logger.Prelude.{
  String, ◌≡◌, refl, sym, ap, ◌∙◌, subst, ◌≢◌, ◌⊎◌, inl, inr, true, Option, none, some, List, [],
  ◌∷◌, arith, str_eq, str_eq_iff, is_some, Bool-cases, Option-cases, keep, All, name_or, keep-holds,
}
use llm_inference_logger.Prelude.Outcome.{ok}
use llm_inference_logger.Providers.Base.{Provider}
use llm_inference_logger.Providers.Registry.{
  register, register_all, find_provider, from_settings, get, resolve_model, mock_name, check_model,
  found, model_for,
}

register-All :
    (P : Provider → Type 0) (ps : List Provider) (p : Provider)
    → All P ps
    → P p
    → All P (register ps p)
register-All P [] p h k = (k, tt)
register-All P (q ∷ qs) p h k = elim (Bool-cases (str_eq q.name p.name)) [
  | inl e ↦ rw e (k, h.1)
  | inr e ↦ rw e (h.0, register-All P qs p h.1 k)
]

pub register_all-All :
    (P : Provider → Type 0) (ps cs : List Provider)
    → All P ps
    → All P cs
    → All P (register_all ps cs)
register_all-All P ps [] h k = h
register_all-All P ps (c ∷ cs) h k =
    register_all-All P (register ps c) cs (register-All P ps c h k.0) k.1

pub find_provider-All :
    (P : Provider → Type 0) (n : String) (ps : List Provider) (p : Provider)
    → All P ps
    → find_provider n ps ≡ some p
    → P p × (p.name ≡ n)
find_provider-All P n [] p h e = cc
find_provider-All P n (q ∷ qs) p h e = elim (Bool-cases (str_eq q.name n)) [
  | inl hit ↦
      let same : q ≡ p = ground (arith, hit, e) in
      let named : q.name ≡ n = ground (arith, str_eq_iff q.name n, hit) in
      subst (λ z. P z × (z.name ≡ n)) same (h.0, named)
  | inr miss ↦ find_provider-All P n qs p h.1 (ground (arith, miss, e))
]

-- Once a name is registered it stays registered.
find_provider-register :
    (n : String) (ps : List Provider) (p : Provider)
    → (is_some (find_provider n ps) ≡ true) ⊎ (p.name ≡ n)
    → is_some (find_provider n (register ps p)) ≡ true
find_provider-register n [] p h = ground (arith, str_eq_iff p.name n)
find_provider-register n (q ∷ qs) p h = ground (
  arith,
  str_eq_iff q.name p.name,
  str_eq_iff q.name n,
  str_eq_iff p.name n,
  find_provider-register n qs p,
)

find_provider-register_all :
    (n : String) (ps cs : List Provider)
    → is_some (find_provider n ps) ≡ true
    → is_some (find_provider n (register_all ps cs)) ≡ true
find_provider-register_all n ps [] h = h
find_provider-register_all n ps (c ∷ cs) h =
    find_provider-register_all n (register ps c) cs (find_provider-register n ps c (inl h))

find_provider-configured :
    (ps cs : List Provider) (m : Provider)
    → m.is_configured ≡ true
    → is_some (find_provider m.name (register_all ps (keep (λ p. p.is_configured) (m ∷ cs)))) ≡ true
find_provider-configured ps cs m on = simp on (
    find_provider-register_all m.name (register ps m) (keep (λ p. p.is_configured) cs)
      (find_provider-register m.name ps m (inr refl)))

registered-configured :
    (cs : List Provider)
    → All (λ p. p.is_configured ≡ true) (register_all [] (keep (λ p. p.is_configured) cs))
registered-configured cs =
    register_all-All (λ p. p.is_configured ≡ true) [] (keep (λ p. p.is_configured) cs) tt
      (keep-holds (λ p. p.is_configured) cs)

-- What is checked of a model is what is answered.
model-check_model :
    (p : Provider) (k n m : String)
    → check_model p k ≡ ok (n, m)
    → (p.name ≡ n) × (p.supports_model m ≡ true)
model-check_model p k n m ran = elim (Bool-cases (p.supports_model k)) [
  | inl e ↦ ground (arith, ran, e)
  | inr e ↦ ground (arith, ran, e)
]

-- Whatever default the settings name and whichever vendors are configured, a request that names no
-- provider gets the default, and it is configured. The mock provider, which needs no configuration,
-- is first among the candidates.
pub get-default :
    (mock : Provider) (vendors : List Provider) (default : String)
    → mock.name ≡ mock_name
    → mock.is_configured ≡ true
    → (p : Provider) × (get (from_settings (mock ∷ vendors) default) none ≡ ok p)
      × (p.is_configured ≡ true)
      × (p.name ≡ (from_settings (mock ∷ vendors) default).default)
unfolding get from_settings
get-default mock vendors default named on =
    let r = from_settings (mock ∷ vendors) default in
    let there : is_some (find_provider r.default r.providers) ≡ true =
      elim (Bool-cases (is_some (find_provider default r.providers))) [
        | inl e ↦ simp e
        | inr e ↦ simp e (
            subst (λ n. is_some (find_provider n r.providers) ≡ true) named
              (find_provider-configured [] vendors mock on))
      ] in
    elim (Option-cases (find_provider r.default r.providers)) [
      | inl e ↦ cc (subst (λ o. is_some o ≡ true) e there)
      | inr (p, e) ↦
          let held =
            find_provider-All (λ q. q.is_configured ≡ true) r.default r.providers p
              (registered-configured (mock ∷ vendors)) e in
          (p, ap (found r r.default) e, held.0, held.1)
    ]

-- A request that resolves names a configured provider that serves the model, and asking the
-- registry for the name again gives that provider.
resolve_model-served :
    (candidates : List Provider) (default n m : String) (name model : Option String)
    → n ≢ ""
    → resolve_model (from_settings candidates default) name model ≡ ok (n, m)
    → (p : Provider) × (get (from_settings candidates default) (some n) ≡ ok p)
      × (p.name ≡ n)
      × (p.is_configured ≡ true)
      × (p.supports_model m ≡ true)
unfolding resolve_model get from_settings
resolve_model-served candidates default n m name model named ran =
    let r = from_settings candidates default in
    let k = name_or name r.default in
    elim (Option-cases (find_provider k r.providers)) [
      | inl e ↦ cc (subst (λ o. model_for model (found r k o) ≡ ok (n, m)) e ran)
      | inr (p, e) ↦
          let checked =
            model-check_model p (name_or model p.default_model) n m
              (subst (λ o. model_for model (found r k o) ≡ ok (n, m)) e ran) in
          let held =
            find_provider-All (λ q. q.is_configured ≡ true) k r.providers p
              (registered-configured candidates) e in
          let plain : name_or (some n) r.default ≡ n = ground (arith, str_eq_iff n "", named) in
          let same : name_or (some n) r.default ≡ k = plain ∙ sym checked.0 ∙ held.1 in
          (
            p,
            ap (found r (name_or (some n) r.default))
                (ap (λ z. find_provider z r.providers) same ∙ e),
            checked.0,
            held.0,
            checked.1,
          )
    ]
