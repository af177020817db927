-- ===== src/Providers/Candidates/Laws.antt =====
-- The registry that the settings give.
use llm_inference_logger.Prelude.{
  String, ◌<>◌, ◌≡◌, refl, sym, ap, ◌∙◌, subst, inl, inr, Bool, true, false, not, Option, none,
  some, List, [], ◌∷◌, ◌++◌, map, arith, str_eq, if◌then◌else◌, is_some, Bool-cases, keep, All,
}
use llm_inference_logger.Providers.Base.{Provider}
use llm_inference_logger.Providers.Registry.Distinct.{
  Distinct, Gives, register_all-Distinct, keep-Distinct, find_provider-Gives,
}
use llm_inference_logger.Providers.Registry.{find_provider, Registry, get, available, from_settings}
use llm_inference_logger.Core.Config.{Settings}
use llm_inference_logger.Providers.Vendor.{client_if}
use llm_inference_logger.Providers.Candidates.{
  Outside, candidates_with, registry_of, candidates, ollama_candidates, vendors_with,
}
use llm_inference_logger.Prelude.Outcome.{ok, err}
use llm_inference_logger.Providers.Mock.{mock_provider}
use llm_inference_logger.Providers.Vendor.Anthropic.{anthropic}
use llm_inference_logger.Core.Errors.{app, provider_not_configured}
use llm_inference_logger.Providers.Vendor.OpenAi.{openai_shaped, groq, gemini, ollama}
use llm_inference_logger.Providers.Registry.Laws.{get-default}

-- What a request for a provider by its name gets.
abbrev pub Answers : Registry → Provider → Type 0
Answers r p = get r (some p.name) ≡ (
    if p.is_configured
    then ok p
    else err (
        app (
          provider_not_configured ("Provider '" <> p.name <> "' is not available") p.name
            (available r))))

Answers-all :
    (r : Registry) (ps : List Provider)
    → All (λ p. str_eq p.name "" ≡ false) ps
    → All (Gives r.providers) ps
    → All (Answers r) ps
unfolding get
Answers-all r [] n h = tt
Answers-all r (p ∷ ps) n h = (simp (n.0, h.0) (ground arith), Answers-all r ps n.1 h.1)

-- A name, where it is offered.
abbrev pub when : Bool → String → List String
when b n = if b then n ∷ [] else []

abbrev pub has_key : Option String → Bool
has_key none = false
has_key (some k) = not (str_eq k "")

-- The names that settings offer, in the order of the candidates.
abbrev pub names_of : Settings → List String
names_of s =
    "mock" ∷ when (has_key s.anthropic_api_key) "anthropic"
    ++ (when (has_key s.openai_api_key) "openai"
        ++ (when (has_key s.groq_api_key) "groq"
            ++ (when (has_key s.gemini_api_key) "gemini" ++ when s.ollama_enabled "ollama")))

is_some-client_if :
    {C : Type 0} (make : String → C) (k : Option String) → is_some (client_if make k) ≡ has_key k
is_some-client_if make none = refl
is_some-client_if make (some k) = ground arith

abbrev offered : List Provider → List String
offered [] = []
offered (p ∷ ps) = when p.is_configured p.name ++ offered ps

map-name-keep :
    (ps : List Provider) → map (λ p. p.name) (keep (λ p. p.is_configured) ps) ≡ offered ps
map-name-keep [] = refl
map-name-keep (p ∷ ps) = elim (Bool-cases p.is_configured) [
  | inl e ↦ simp e (ap (◌∷◌ p.name) (map-name-keep ps))
  | inr e ↦ simp e (map-name-keep ps)
]

-- What is asked of the names of providers.
record Named (ps : List Provider) : Type 0 where
  distinct : Distinct ps
  not_blank : All (λ p. str_eq p.name "" ≡ false) ps

module _ (o : Outside) (s : Settings) where
  candidates-Named : (b : Bool) → Named (candidates_with o s b)
  unfolding mock_provider anthropic openai_shaped groq gemini ollama
  candidates-Named true = record {
    distinct = (
      (refl, (refl, (refl, (refl, (refl, tt))))),
      (
        (refl, (refl, (refl, (refl, tt)))),
        ((refl, (refl, (refl, tt))), ((refl, (refl, tt)), ((refl, tt), (tt, tt)))),
      ),
    );
    not_blank = (refl, (refl, (refl, (refl, (refl, (refl, tt))))));
  }
  candidates-Named false = record {
    distinct = (
      (refl, (refl, (refl, (refl, tt)))),
      ((refl, (refl, (refl, tt))), ((refl, (refl, tt)), ((refl, tt), (tt, tt)))),
    );
    not_blank = (refl, (refl, (refl, (refl, (refl, tt)))));
  }

  offered-ollama : (b : Bool) → offered (ollama_candidates o s b) ≡ when b "ollama"
  unfolding openai_shaped ollama
  offered-ollama true = refl
  offered-ollama false = refl

  offered-candidates :
      (b : Bool) → offered (candidates_with o s b) ≡ names_of (record s { ollama_enabled = b })
  unfolding mock_provider anthropic openai_shaped groq gemini
  offered-candidates b = simp (
    offered-ollama b,
    is_some-client_if o.anthropic_client s.anthropic_api_key,
    is_some-client_if o.openai_client s.openai_api_key,
    is_some-client_if (λ k. o.compatible_client k s.groq_base_url) s.groq_api_key,
    is_some-client_if (λ k. o.compatible_client k s.gemini_base_url) s.gemini_api_key,
  )

  -- The registry holds every candidate that is configured.
  providers-registry_of :
      (registry_of o s).providers
      ≡ keep (λ p. p.is_configured) (candidates_with o s s.ollama_enabled)
  unfolding registry_of candidates from_settings
  providers-registry_of = register_all-Distinct [] _ (
      keep-Distinct (λ p. p.is_configured) (candidates_with o s s.ollama_enabled)
        (candidates-Named s.ollama_enabled).distinct)

  -- The providers that the settings offer are the mock provider, each vendor whose key is set and
  -- not empty, and Ollama where it is enabled, in the order in which they are listed. A request that
  -- names one of them gets the adapter that was made of its key and its default model; one that
  -- names a vendor that is not offered is refused, and told the names that are. A request that names
  -- none gets a provider that is configured: the default of the settings where it is offered, and
  -- the mock provider where it is not.
  pub registry_of-Serves :
      let r = registry_of o s in
      (map (λ p. p.name) r.providers ≡ names_of s)
      × All (Answers r) (candidates o s)
      × ((p : Provider) × (get r none ≡ ok p)
          × (p.is_configured ≡ true)
          × (p.name ≡ (
              if is_some (find_provider s.default_provider r.providers)
              then s.default_provider
              else "mock")))
  unfolding registry_of candidates from_settings mock_provider
  registry_of-Serves =
      let named = candidates-Named s.ollama_enabled in
      let ps = candidates_with o s s.ollama_enabled in
      (
        ap (map (λ p. p.name)) providers-registry_of
            ∙ map-name-keep ps
            ∙ offered-candidates s.ollama_enabled,
        Answers-all (registry_of o s) ps named.not_blank (
            subst (λ qs. All (Gives qs) ps) (sym providers-registry_of)
              (find_provider-Gives ps named.distinct)),
        get-default (mock_provider o.digest o.taken o.interruption)
            (vendors_with o s s.ollama_enabled) s.default_provider refl refl,
      )
