-- ===== src/Api/Providers/Laws.antt =====
-- Whatever the picker offers resolves.
use llm_inference_logger.Prelude.{
  String, ◌≡◌, refl, ap, ◌∙◌, subst, inl, inr, true, false, none, some, List, [], ◌∷◌, map, arith,
  str_eq, str_eq_iff, codes, if◌then◌else◌, is_some, Bool-cases, Option-cases, keep, All, name_or,
  All-map, text_lt, All-keep,
}
use llm_inference_logger.Prelude.Outcome.{ok, bind}
use llm_inference_logger.Prelude.Order.Laws.{order_by-All}
use llm_inference_logger.Providers.Base.{Provider}
use llm_inference_logger.Providers.Registry.{
  Registry, available, find_provider, found, resolve_model, from_settings, register_all,
  check_model, model_for,
}
use llm_inference_logger.Providers.Registry
use llm_inference_logger.Providers.Registry.Laws.{find_provider-All, register_all-All}
use llm_inference_logger.Api.Providers.{ProviderInfo, ProviderList, info_of, infos, list_providers}

-- A provider with a name, which serves its default and every model that it advertises.
pub record Serves (p : Provider) : Type 0 where
  pub named : str_eq p.name "" ≡ false
  pub default_model : p.supports_model p.default_model ≡ true
  pub models : All (λ m. (str_eq m "" ≡ false) × (p.supports_model m ≡ true)) p.supported_models

-- An offer that resolves to itself, with the default model and with every other.
pub record Resolves (r : Registry) (i : ProviderInfo) : Type 0 where
  pub default_model : resolve_model r (some i.name) none ≡ ok (i.name, i.default_model)
  pub models : All (λ m. resolve_model r (some i.name) (some m) ≡ ok (i.name, m)) i.models

-- What `find_provider` gives for a name of the registry.
abbrev Offered : Registry → String → Type 0
Offered r n = (p : Provider) × (find_provider n r.providers ≡ some p) × (p.name ≡ n) × Serves p

found_here :
    (n : String) (ps : List Provider)
    → All (λ m. is_some (find_provider m ps) ≡ true) (map (λ p. p.name) ps)
found_here n [] = tt
found_here n (p ∷ ps) = (
  simp ((str_eq_iff p.name p.name).1 refl) refl,
  All-map (λ m. is_some (find_provider m ps) ≡ true)
      (λ m. is_some (find_provider m (p ∷ ps)) ≡ true) (map (λ q. q.name) ps)
      (λ m h. elim (Bool-cases (str_eq p.name m)) [ inl e ↦ simp e refl | inr e ↦ simp e h ])
      (found_here n ps),
)

available-Offered : (r : Registry) → All Serves r.providers → All (Offered r) (available r)
unfolding available
available-Offered r good =
    order_by-All (λ a b. text_lt (codes a) (codes b)) (Offered r) (map (λ p. p.name) r.providers)
      (All-map (λ n. is_some (find_provider n r.providers) ≡ true) (Offered r)
        (map (λ p. p.name) r.providers)
        (λ n h. elim (Option-cases (find_provider n r.providers)) [
          | inl e ↦ absurd (ground (arith, h, e))
          | inr e ↦
              let held = find_provider-All Serves n r.providers e.0 good e.1 in
              (e.0, e.1, held.1, held.0)
        ])
        (found_here "" r.providers))

get-Offered : (r : Registry) (n : String) (o : Offered r n) → Registry.get r (some n) ≡ ok o.0
unfolding Registry.get
get-Offered r n (p, e, same, s) =
    let plain : name_or (some n) r.default ≡ n =
      ap (λ b. if b then r.default else n) (subst (λ k. str_eq k "" ≡ false) same s.named) in
    ap (λ k. found r k (find_provider k r.providers)) plain ∙ ap (found r n) e

checked :
    (p : Provider) (n m : String)
    → p.name ≡ n
    → p.supports_model m ≡ true
    → check_model p m ≡ ok (n, m)
checked p n m same h = simp h (ap (λ k. ok (k, m)) same)

info-Resolves : (r : Registry) (n : String) (o : Offered r n) → Resolves r (info_of r n o.0)
unfolding resolve_model
info-Resolves r n (p, e, same, s) =
    let got = get-Offered r n (p, e, same, s) in
    record {
      default_model = ap (model_for none) got ∙ checked p n p.default_model same s.default_model;
      models =
          All-map (λ m. (str_eq m "" ≡ false) × (p.supports_model m ≡ true))
            (λ m. resolve_model r (some n) (some m) ≡ ok (n, m)) p.supported_models
            (λ m h.
              ap (model_for (some m)) got
              ∙ ap (λ b. check_model p (if b then p.default_model else m)) h.0
              ∙ checked p n m same h.1)
            s.models;
    }

infos-Resolves :
    (r : Registry) (ns : List String)
    → All (Offered r) ns
    → (is : List ProviderInfo) × (infos r ns ≡ ok is)
      × (map (λ i. i.name) is ≡ ns)
      × All (Resolves r) is
unfolding infos
infos-Resolves r [] h = ([], refl, refl, tt)
infos-Resolves r (n ∷ ns) h =
    let (is, e, names, all) = infos-Resolves r ns h.1 in
    (
      info_of r n h.0.0 ∷ is,
      ap (λ g. bind g (λ p. bind (infos r ns) (λ is. ok (info_of r n p ∷ is))))
            (get-Offered r n h.0)
          ∙ ap (λ g. bind g (λ is. ok (info_of r n h.0.0 ∷ is))) e,
      ap (λ z. n ∷ z) names,
      (info-Resolves r n h.0, all),
    )

-- The listing of providers is always answered. It names the available providers in their order, and
-- whatever it offers resolves: each provider with the default model it is shown with, and with
-- every model it is shown to have. The candidates have names, and serve what they advertise.
pub list_providers-Resolves :
    (candidates : List Provider) (default : String)
    → All Serves candidates
    → let r = from_settings candidates default in
      (l : ProviderList) × (list_providers r ≡ ok l)
      × (map (λ i. i.name) l.items ≡ available r)
      × All (Resolves r) l.items
unfolding list_providers from_settings
list_providers-Resolves candidates default serve =
    let r = from_settings candidates default in
    let good : All Serves r.providers =
      register_all-All Serves [] (keep (λ p. p.is_configured) candidates) tt
        (All-keep Serves (λ p. p.is_configured) candidates serve) in
    let (is, e, names, all) = infos-Resolves r (available r) (available-Offered r good) in
    (
      record { items = is; default = r.default },
      ap (λ g. bind g (λ is. ok (record { items = is; default = r.default }))) e,
      names,
      all,
    )
