-- ===== src/Providers/Mock/Tests.antt =====
-- A request to the model that fails.
use llm_inference_logger.Prelude.{String, ◌≡◌, refl, none, [], ◌∷◌, Text, codes, take, decimal}
use llm_inference_logger.Domain.Enums.{MessageRole}
use llm_inference_logger.Providers.Base.{ChatRequest}
use llm_inference_logger.Providers.Mock.{mock_words, template, topic, split, split_from}

abbrev request : ChatRequest
request = record {
  messages =
      record { role = MessageRole.user; content = codes " cats " }
      ∷ record { role = MessageRole.assistant; content = codes "ok" }
      ∷ [];
  model = "mock-error";
  max_output_tokens = 16;
  system = none;
}

about_cats :
    take 4 (mock_words request) ≡ codes "You" ∷ codes "asked" ∷ codes "about" ∷ codes "cats." ∷ []
unfolding mock_words template topic split split_from decimal
about_cats = refl

abbrev no_digest : Text → String
no_digest t = "0"
