-- ===== src/Providers/Registry.antt =====
-- backend/app/providers/registry.py: which providers there are, and which one a request is for.
pub mod Laws
pub mod Distinct
use llm_inference_logger.Prelude.{
  String, ◌<>◌, not, Option, none, some, List, [], ◌∷◌, map, str_eq, codes, if◌then◌else◌, is_some,
  keep, name_or, text_lt,
}
use llm_inference_logger.Prelude.Outcome.{Result, ok, err}
use llm_inference_logger.Prelude.Order.{order_by}
use llm_inference_logger.Core.Errors.{Exn, app, provider_not_configured, model_not_supported}
use llm_inference_logger.Providers.Base.{Provider}

-- The dictionary of providers, whose keys are their names.
pub record Registry : Type 0 where
  pub providers : List Provider
  pub default : String

-- One entry of `{p.name: p for ...}`: a name that is there already keeps its place and changes its
-- value.
abbrev pub register : List Provider → Provider → List Provider
register [] p = p ∷ []
register (q ∷ qs) p = let rest = register qs p in if str_eq q.name p.name then p ∷ qs else q ∷ rest

abbrev pub register_all : List Provider → List Provider → List Provider
register_all ps [] = ps
register_all ps (c ∷ cs) = register_all (register ps c) cs

-- `self._providers.get(name)`
abbrev pub find_provider : String → List Provider → Option Provider
find_provider n [] = none
find_provider n (p ∷ ps) = if str_eq p.name n then some p else find_provider n ps

-- `MockProvider.name`
abbrev pub mock_name : String
mock_name = "mock"

-- `from_settings`, from the candidates it lists and `settings.default_provider`.
unfoldable pub from_settings : List Provider → String → Registry
from_settings candidates default =
    let ps = register_all [] (keep (λ p. p.is_configured) candidates) in
    record {
      providers = ps;
      default = if is_some (find_provider default ps) then default else mock_name;
    }

-- `available`
unfoldable pub available : Registry → List String
available r = order_by (λ a b. text_lt (codes a) (codes b)) (map (λ p. p.name) r.providers)

abbrev pub found : Registry → String → Option Provider → Result Exn Provider
found r name (some p) = ok p
found r name none = err (
    app (provider_not_configured ("Provider '" <> name <> "' is not available") name (available r)))

-- `get`
unfoldable pub get : Registry → Option String → Result Exn Provider
get r name =
    let resolved = name_or name r.default in found r resolved (find_provider resolved r.providers)

abbrev pub check_model : Provider → String → Result Exn (String × String)
check_model p m =
    if p.supports_model m
    then ok (p.name, m)
    else err (
        app (
          model_not_supported ("Provider '" <> p.name <> "' does not serve model '" <> m <> "'")
            p.name m p.supported_models))

abbrev pub model_for : Option String → Result Exn Provider → Result Exn (String × String)
model_for model (ok p) = check_model p (name_or model p.default_model)
model_for model (err e) = err e

-- `resolve_model`. The message quotes a name as Python does where it holds no quote and nothing
-- that Python escapes.
unfoldable pub resolve_model :
    Registry → Option String → Option String → Result Exn (String × String)
resolve_model r name model = model_for model (get r name)
