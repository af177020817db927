-- ===== src/Db/Texts.antt =====
-- What Postgres takes in a TEXT, VARCHAR or JSONB column of backend/app/db/models.py: no text with
-- U+0000 in it, and none that has no UTF-8 bytes.
use llm_inference_logger.Prelude.{
  String, Text, Bool, true, not, ◌&&◌, Option, none, some, [], ◌∷◌, codes, ◌==◌,
}
use llm_inference_logger.Core.Config.Quote.{is_surrogate}
use llm_inference_logger.Domain.Json.{
  Json, Items, Fields, Dict, null, bool, num, str, arr, obj, nil, cons, end, field,
}

abbrev pub is_storable : Text → Bool
is_storable [] = true
is_storable (c ∷ t) = not (c == 0) && not (is_surrogate c) && is_storable t

abbrev pub is_storable_name : String → Bool
is_storable_name s = is_storable (codes s)

-- A nullable column.
abbrev pub opt_storable : Option Text → Bool
opt_storable none = true
opt_storable (some t) = is_storable t

abbrev pub opt_storable_name : Option String → Bool
opt_storable_name none = true
opt_storable_name (some s) = is_storable_name s

-- A value of JSONB: each of its texts and keys.
unfoldable mutual
  pub json_storable : Json → Bool
  json_storable null = true
  json_storable (bool b) = true
  json_storable (num z) = true
  json_storable (str t) = is_storable t
  json_storable (arr js) = items_storable js
  json_storable (obj fs) = fields_storable fs

  pub items_storable : Items → Bool
  items_storable nil = true
  items_storable (cons j js) = json_storable j && items_storable js

  pub fields_storable : Fields → Bool
  fields_storable end = true
  fields_storable (field k j fs) = is_storable_name k && json_storable j && fields_storable fs

unfoldable pub dict_storable : Dict → Bool
unfolding json_storable
dict_storable [] = true
dict_storable ((k, j) ∷ d) = is_storable_name k && json_storable j && dict_storable d

abbrev pub opt_dict_storable : Option Dict → Bool
opt_dict_storable none = true
opt_dict_storable (some d) = dict_storable d
