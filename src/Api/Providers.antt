-- ===== src/Api/Providers.antt =====
-- backend/app/api/chat.py: `list_providers`, what the model picker of a client is made of.
pub mod Laws
mod Tests
use llm_inference_logger.Prelude.{String, Bool, some, List, [], ◌∷◌, str_eq}
use llm_inference_logger.Prelude.Outcome.{Result, ok, err, bind}
use llm_inference_logger.Core.Errors.{Exn}
use llm_inference_logger.Providers.Base.{Provider}
use llm_inference_logger.Providers.Registry.{Registry, available}
use llm_inference_logger.Providers.Registry

pub record ProviderInfo : Type 0 where
  pub name : String
  pub default_model : String
  pub is_default : Bool
  pub models : List String

pub record ProviderList : Type 0 where
  pub items : List ProviderInfo
  pub default : String

abbrev pub info_of : Registry → String → Provider → ProviderInfo
info_of r name p = record {
  name = name;
  default_model = p.default_model;
  is_default = str_eq name r.default;
  models = p.supported_models;
}

-- The comprehension over the names.
unfoldable pub infos : Registry → List String → Result Exn (List ProviderInfo)
infos r [] = ok []
infos r (n ∷ ns) =
    let rest = infos r ns in
    bind (Registry.get r (some n)) (λ p. bind rest (λ is. ok (info_of r n p ∷ is)))

-- `list_providers`
unfoldable pub list_providers : Registry → Result Exn ProviderList
list_providers r =
    bind (infos r (available r)) (λ is. ok (record { items = is; default = r.default }))
