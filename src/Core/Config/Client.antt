-- ===== src/Core/Config/Client.antt =====
-- How a client of `redis_url` takes the URL apart: the authority ends at the first `/`, `?` or `#`,
-- the user information at the last `@` of it, and `:` separates the name from the password and the
-- host from the port; the password is percent-decoded.
use llm_inference_logger.Prelude.{
  ℕ, ◌+◌, ◌-◌, ◌*◌, Bool, false, ◌&&◌, ◌||◌, Option, none, some, List, [], ◌∷◌, Text, ltb, leb,
  ◌==◌, if◌then◌else◌, drop,
}

abbrev pub is_stop : ℕ → Bool
is_stop c = c == 47 || c == 63 || c == 35

abbrev pub is_at : ℕ → Bool
is_at c = c == 64

abbrev pub is_colon : ℕ → Bool
is_colon c = c == 58

-- What stands before, and after, the first character that passes a test.
unfoldable pub until : (ℕ → Bool) → Text → Text
until p [] = []
until p (c ∷ t) = let rest = until p t in if p c then [] else c ∷ rest

unfoldable pub past : (ℕ → Bool) → Text → Text
past p [] = []
past p (c ∷ t) = let rest = past p t in if p c then t else rest

abbrev pub has : (ℕ → Bool) → Text → Bool
has p [] = false
has p (c ∷ t) = p c || has p t

-- `rpartition("@")`
unfoldable pub before_last : (ℕ → Bool) → Text → Text
before_last p [] = []
before_last p (c ∷ t) = let rest = before_last p t in if has p t then c ∷ rest else []

unfoldable pub after_last : (ℕ → Bool) → Text → Text
after_last p [] = []
after_last p (c ∷ t) =
    let rest = after_last p t in if has p t then rest else if p c then t else c ∷ t

abbrev pub hex_value : ℕ → ℕ
hex_value c = if ltb c 58 then c - 48 else if ltb c 71 then c - 55 else c - 87

abbrev pub is_hex : ℕ → Bool
is_hex c = leb 48 c && leb c 57 || leb 65 c && leb c 70 || leb 97 c && leb c 102

-- `unquote_to_bytes`
unfoldable pub unquote : Text → List ℕ
unquote (c ∷ a ∷ b ∷ t) =
    let decoded = (hex_value a * 16 + hex_value b) ∷ unquote t in
    let plain = c ∷ unquote (a ∷ b ∷ t) in
    if c == 37 && is_hex a && is_hex b then decoded else plain
unquote (c ∷ a ∷ []) = c ∷ a ∷ []
unquote (c ∷ []) = c ∷ []
unquote [] = []

pub record Address : Type 0 where
  pub password : Option (List ℕ)
  pub host : Text
  pub port : Text
  pub path : Text

-- The two slashes after `scheme:`.
abbrev pub authority : Text → Text
authority t = until is_stop (drop 2 (past is_colon t))

unfoldable pub read_url : Text → Address
unfolding until past before_last after_last unquote
read_url t =
    let net = authority t in
    let place = after_last is_at net in
    record {
      password =
          if has is_at net then some (unquote (past is_colon (before_last is_at net))) else none;
      host = until is_colon place;
      port = past is_colon place;
      path = past is_stop (drop 2 (past is_colon t));
    }
