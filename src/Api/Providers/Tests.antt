-- ===== src/Api/Providers/Tests.antt =====
-- Three candidates, one without a key.
use llm_inference_logger.Prelude.{
  String, ◌≡◌, refl, Bool, true, false, none, List, [], ◌∷◌, map, All,
}
use llm_inference_logger.Prelude.Outcome.{ok}
use llm_inference_logger.Providers.Base.{Provider, finished}
use llm_inference_logger.Providers.Registry.{from_settings, available}
use llm_inference_logger.Api.Providers.{ProviderList, list_providers}
use llm_inference_logger.Api.Providers.Laws.{Resolves, list_providers-Resolves}

abbrev candidate : String → Bool → Provider
candidate n on = record {
  name = n;
  default_model = n;
  supported_models = n ∷ "large" ∷ [];
  supports_model = λ m. true;
  max_output_tokens_cap = none;
  is_configured = on;
  stream_chat = λ _. record { chunks = []; ending = finished };
}

abbrev three : List Provider
three = candidate "mock" true ∷ candidate "openai" false ∷ candidate "groq" true ∷ []

list_providers-Resolves_example :
    let r = from_settings three "openai" in
    (l : ProviderList) × (list_providers r ≡ ok l)
    × (map (λ i. i.name) l.items ≡ available r)
    × All (Resolves r) l.items
list_providers-Resolves_example = list_providers-Resolves three "openai" (
  record { named = refl; default_model = refl; models = ((refl, refl), ((refl, refl), tt)) },
  (
    record { named = refl; default_model = refl; models = ((refl, refl), ((refl, refl), tt)) },
    (
      record { named = refl; default_model = refl; models = ((refl, refl), ((refl, refl), tt)) },
      tt,
    ),
  ),
)
