-- ===== src/Providers/Tests.antt =====
-- A registry of two providers that are configured and one that is not, and the registry that settings
-- with one key give.
use llm_inference_logger.Prelude.{
  if◌then◌else◌, String, ◌≡◌, refl, Bool, true, false, none, some, List, [], ◌∷◌, str_eq, codes,
  map, All, is_some,
}
use llm_inference_logger.Providers.Base.{ChunkStream, StreamChunk, finished}
use llm_inference_logger.Prelude.Outcome.{ok}
use llm_inference_logger.Prelude.Order.{order_by, insert_sorted}
use llm_inference_logger.Providers.Base.{Provider}
use llm_inference_logger.Providers.Registry.{
  available, from_settings, get, resolve_model, find_provider,
}
use llm_inference_logger.Core.Config.{Settings, default_settings}
use llm_inference_logger.Providers.Candidates.{registry_of, Outside, candidates}
use llm_inference_logger.Providers.Vendor.{ended}
use llm_inference_logger.Core.Errors.{Exn}
use llm_inference_logger.Providers.Candidates.Laws.{Answers, registry_of-Serves}

abbrev chunk : String → StreamChunk
chunk t = record { delta_text = codes t; finish_reason = none; usage = none; metadata = [] }

abbrev two_chunks : ChunkStream
two_chunks = record { chunks = chunk "ab" ∷ chunk "c" ∷ []; ending = finished }

abbrev model_provider : String → Bool → Provider
model_provider n on = record {
  name = n;
  default_model = n;
  supported_models = n ∷ [];
  supports_model = str_eq n;
  max_output_tokens_cap = none;
  is_configured = on;
  stream_chat = λ _. two_chunks;
}

abbrev vendors : List Provider
vendors = model_provider "groq" true ∷ model_provider "anthropic" false ∷ []

names :
    available (from_settings (model_provider "mock" true ∷ vendors) "anthropic")
    ≡ "groq" ∷ "mock" ∷ []
unfolding available from_settings order_by insert_sorted
names = refl

resolved : resolve_model (from_settings vendors "groq") none none ≡ ok ("groq", "groq")
unfolding resolve_model get from_settings
resolved = refl

-- Clients that answer nothing.
abbrev pub outside : Outside
outside = record {
  anthropic_client = λ key request. record { events = []; stop = ended };
  openai_client = λ key request. record { events = []; stop = ended };
  compatible_client = λ key base_url request. record { events = []; stop = ended };
  digest = λ t. "0";
  taken = 0;
  interruption = Exn.cancelled;
}

-- A key for Groq, an empty one for OpenAI, and a default without a key.
abbrev keys : Settings
keys = record default_settings {
  groq_api_key = some "k";
  openai_api_key = some "";
  default_provider = "anthropic";
}

registry_of-Serves_example :
    let r = registry_of outside keys in
    (map (λ p. p.name) r.providers ≡ "mock" ∷ "groq" ∷ [])
    × All (Answers r) (candidates outside keys)
    × ((p : Provider) × (get r none ≡ ok p)
        × (p.is_configured ≡ true)
        × (p.name
            ≡ (if is_some (find_provider "anthropic" r.providers) then "anthropic" else "mock")))
registry_of-Serves_example = registry_of-Serves outside keys
