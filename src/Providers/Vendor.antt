-- ===== src/Providers/Vendor.antt =====
-- What the adapters of backend/app/providers share: the vendor's stream and its errors.
pub mod OpenAi
pub mod Anthropic
mod Tests
use llm_inference_logger.Prelude.{
  if◌then◌else◌, str_eq, String, Bool, Option, none, some, List, [], ◌∷◌, Text,
}
use llm_inference_logger.Core.Errors.{Exn, app, provider_error}
use llm_inference_logger.Providers.Base.{StreamChunk, ChunkStream, Ending, finished, raised}

-- An APIError of a vendor's SDK: its class, its `str()`, and whether it is a rate limit, an internal
-- error of the server or a connection error.
pub record ApiError : Type 0 where
  pub class_name : String
  pub text : String
  pub is_transient : Bool

-- How a vendor's stream stops; a request that is refused is a stream without events.
pub data VendorEnd : Type 0 where
  ended : VendorEnd
  api_error : ApiError → VendorEnd
  interrupted : Exn → VendorEnd

pub record VendorStream (Event : Type 0) : Type 0 where
  pub events : List Event
  pub stop : VendorEnd

-- A message as both vendors take it.
pub record VendorMessage : Type 0 where
  pub role : String
  pub content : Text

-- `_translate`
unfoldable pub translate : String → ApiError → Exn
translate name e = app (provider_error e.text name e.is_transient (some e.class_name))

-- `except APIError`; any other exception goes through.
abbrev pub ending_of : String → VendorEnd → Ending
ending_of name ended = finished
ending_of name (api_error e) = raised (translate name e)
ending_of name (interrupted x) = raised x

-- The chunks of the events that have one.
abbrev pub chunks_of :
    {Event : Type 0} → (Event → Option StreamChunk) → List Event → List StreamChunk
chunks_of to_chunk [] = []
chunks_of to_chunk (e ∷ es) =
    let rest = chunks_of to_chunk es in elim (to_chunk e) [ none ↦ rest | some c ↦ c ∷ rest ]

-- A value or nothing: `s or None`.
abbrev pub truthy : Option Text → Option Text
truthy none = none
truthy (some []) = none
truthy (some (c ∷ t)) = some (c ∷ t)

abbrev pub text_or_empty : Option Text → Text
text_or_empty none = []
text_or_empty (some t) = t

-- `Client(api_key=api_key) if api_key else None`
abbrev pub client_if : {C : Type 0} → (String → C) → Option String → Option C
client_if make none = none
client_if make (some key) = if str_eq key "" then none else some (make key)
