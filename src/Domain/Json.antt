-- ===== src/Domain/Json.antt =====
-- The JSON values that payloads, error bodies and metadata carry (`dict[str, Any]`).
use llm_inference_logger.Prelude.{
  ℤ, String, Text, Bool, Option, none, some, List, [], ◌∷◌, str_eq, codes, if◌then◌else◌,
}

mutual
  pub data Json : Type 0 where
    null : Json
    bool : Bool → Json
    num : ℤ → Json
    str : Text → Json
    arr : Items → Json
    obj : Fields → Json

  pub data Items : Type 0 where
    nil : Items
    cons : Json → Items → Items

  pub data Fields : Type 0 where
    end : Fields
    field : String → Json → Fields → Fields

-- A string literal as a JSON value.
abbrev pub lit : String → Json
lit s = str (codes s)

abbrev pub lits : List String → Items
lits [] = nil
lits (s ∷ ss) = cons (lit s) (lits ss)

-- A Python dict with string keys, in insertion order.
abbrev pub Dict : Type 0
Dict = List (String × Json)

-- `d.get(k)`
abbrev pub lookup : String → Dict → Option Json
lookup k [] = none
lookup k ((j, v) ∷ d) = if str_eq j k then some v else lookup k d

-- `d[k] = v`
abbrev pub insert : String → Json → Dict → Dict
insert k v [] = (k, v) ∷ []
insert k v ((j, w) ∷ d) = if str_eq j k then (j, v) ∷ d else (j, w) ∷ insert k v d

-- `d.update(e)`
abbrev pub update : Dict → Dict → Dict
update d [] = d
update d ((k, v) ∷ e) = update (insert k v d) e
