-- ===== src/Providers/Candidates.antt =====
-- backend/app/providers/registry.py: the candidates that `from_settings` makes of the settings.
pub mod Laws
use llm_inference_logger.Prelude.{ℕ, String, Bool, true, false, none, some, List, [], ◌∷◌, Text}
use llm_inference_logger.Core.Config.{Settings}
use llm_inference_logger.Providers.Vendor.Anthropic.{MessagesClient, anthropic}
use llm_inference_logger.Providers.Base.{Provider}
use llm_inference_logger.Providers.Vendor.OpenAi.{
  CompletionClient, gemini, openai_shaped, ollama, groq,
}
use llm_inference_logger.Providers.Registry.{Registry, from_settings}
use llm_inference_logger.Providers.Mock.{mock_provider}
use llm_inference_logger.Core.Errors.{Exn}
use llm_inference_logger.Providers.Vendor.{client_if}

-- What the SDKs make of a key and an address, what the mock provider takes a digest with, and what
-- interrupts its endless stream.
pub record Outside : Type 0 where
  pub anthropic_client : String → MessagesClient
  pub openai_client : String → CompletionClient
  pub compatible_client : String → String → CompletionClient
  pub digest : Text → String
  pub taken : ℕ
  pub interruption : Exn

module _ (o : Outside) (s : Settings) where
  abbrev pub anthropic_candidate : Provider
  anthropic_candidate =
      anthropic (client_if o.anthropic_client s.anthropic_api_key) s.default_anthropic_model

  -- `OpenAIProvider` itself
  abbrev pub openai_candidate : Provider
  openai_candidate =
      openai_shaped "openai" none (client_if o.openai_client s.openai_api_key)
        s.default_openai_model

  abbrev pub groq_candidate : Provider
  groq_candidate =
      groq o.compatible_client s.groq_api_key s.groq_base_url s.default_groq_model
        (some s.groq_max_output_tokens)

  abbrev pub gemini_candidate : Provider
  gemini_candidate =
      gemini o.compatible_client s.gemini_api_key s.gemini_base_url s.default_gemini_model

  abbrev pub ollama_candidates : Bool → List Provider
  ollama_candidates true = ollama o.compatible_client s.ollama_base_url s.default_ollama_model ∷ []
  ollama_candidates false = []

  -- All but the mock provider.
  abbrev pub vendors_with : Bool → List Provider
  vendors_with ollama_enabled =
      anthropic_candidate
      ∷ openai_candidate
      ∷ groq_candidate
      ∷ gemini_candidate
      ∷ ollama_candidates ollama_enabled

  abbrev pub candidates_with : Bool → List Provider
  candidates_with ollama_enabled =
      mock_provider o.digest o.taken o.interruption ∷ vendors_with ollama_enabled

  -- `candidates`
  unfoldable pub candidates : List Provider
  candidates = candidates_with s.ollama_enabled

  -- `from_settings`
  unfoldable pub registry_of : Registry
  registry_of = from_settings candidates s.default_provider
