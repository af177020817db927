-- ===== src/Instrumentation/Redaction/Pattern.antt =====
-- The part of Python's `re` that backend/app/instrumentation/redaction.py uses: case-insensitive
-- sets, sequences, alternatives, greedy repeats, `\b`, and `Pattern.sub`. A match is found by
-- backtracking, so the ends of the matches at a place are listed in the order in which they are tried.
use llm_inference_logger.Prelude.{
  ℕ, zero, suc, ◌+◌, ◌-◌, ◌*◌, Bool, false, not, ◌&&◌, ◌||◌, Option, none, some, List, [], ◌∷◌,
  ◌++◌, Text, ltb, leb, ◌==◌, if◌then◌else◌, length,
}

-- What Unicode says of the code points from 128 on, and the letter that stands for each case.
pub record Unicode : Type 0 where
  pub is_digit : ℕ → Bool
  pub is_letter : ℕ → Bool
  pub is_space : ℕ → Bool
  pub fold : ℕ → ℕ

abbrev within : ℕ → ℕ → ℕ → Bool
within lo hi c = leb lo c && leb c hi

-- An item of a set: a range of characters, `\d`, `\w` or `\s`.
pub data Item : Type 0 where
  range : ℕ → ℕ → Item
  digit : Item
  word : Item
  space : Item

-- `many` is a greedy repeat of a set, `{m,}`; `repeat r m k` is `{m,m+k}`.
pub data Regex : Type 0 where
  one_of : List Item → Regex
  many : List Item → ℕ → Regex
  edge : Regex
  seq : Regex → Regex → Regex
  either : Regex → Regex → Regex
  repeat : Regex → ℕ → ℕ → Regex

-- A place in a text: the character before it, and the text from it on.
pub record Place : Type 0 where
  pub before : Option ℕ
  pub after : Text

abbrev pub start : Text → Place
start t = record { before = none; after = t }

abbrev pub place : Option ℕ → Text → Place
place b t = record { before = b; after = t }

abbrev pub flat_map {ℓ κ} : {A : Type ℓ} {B : Type κ} → (A → List B) → List A → List B
flat_map f [] = []
flat_map f (x ∷ xs) = f x ++ flat_map f xs

abbrev pub stop : ℕ → Place → List Place
stop zero p = p ∷ []
stop (suc m) p = []

abbrev pub up_to : (Place → List Place) → ℕ → Place → List Place
up_to f zero p = p ∷ []
up_to f (suc k) p = flat_map (up_to f k) (f p) ++ p ∷ []

abbrev pub times : (Place → List Place) → ℕ → ℕ → Place → List Place
times f zero k p = up_to f k p
times f (suc m) k p = flat_map (times f m k) (f p)

-- The end of the first match, which must not be empty where an empty match was just replaced.
abbrev pub first_end : Bool → ℕ → List Place → Option Place
first_end must n [] = none
first_end must n (d ∷ ds) =
    let rest = first_end must n ds in if must && length d.after == n then rest else some d

module _ (u : Unicode) where
  unfoldable pub has_digit : ℕ → Bool
  has_digit c = if ltb c 128 then within 48 57 c else u.is_digit c

  unfoldable pub has_word : ℕ → Bool
  unfolding has_digit
  has_word c =
      if ltb c 128
      then within 48 57 c || within 65 90 c || within 97 122 c || c == 95
      else u.is_letter c || u.is_digit c

  unfoldable pub has_space : ℕ → Bool
  has_space c = if ltb c 128 then within 9 13 c || within 28 32 c else u.is_space c

  -- `re.IGNORECASE`: a character stands for its case class.
  unfoldable pub folded : ℕ → ℕ
  folded c = if ltb c 128 then (if within 65 90 c then c + 32 else c) else u.fold c

  abbrev upper : ℕ → ℕ
  upper c = if within 97 122 c then c - 32 else c

  unfoldable pub in_item : Item → ℕ → Bool
  unfolding folded has_digit has_word has_space
  in_item (range lo hi) c = within lo hi (folded c) || within lo hi (upper (folded c))
  in_item digit c = has_digit (folded c)
  in_item word c = has_word (folded c)
  in_item space c = has_space (folded c)

  unfoldable pub allowed : List Item → ℕ → Bool
  unfolding in_item
  allowed [] c = false
  allowed (i ∷ k) c = in_item i c || allowed k c

  abbrev is_word : Option ℕ → Bool
  is_word none = false
  is_word (some c) = has_word c

  abbrev first : Text → Option ℕ
  first [] = none
  first (c ∷ _) = some c

  -- `\b`
  unfoldable pub at_edge : Place → Bool
  unfolding has_word
  at_edge p = if is_word p.before then not (is_word (first p.after)) else is_word (first p.after)

  abbrev pub one_ends : List Item → Place → List Place
  one_ends k p = elim (p.after) [
    | [] ↦ []
    | c ∷ t ↦ if allowed k c then place (some c) t ∷ [] else []
  ]

  -- As many as there are first, then one less at each return.
  unfoldable pub many_ends : List Item → ℕ → Option ℕ → Text → List Place
  unfolding allowed
  many_ends k m b [] = stop m (place b [])
  many_ends k m b (c ∷ t) =
      let more = many_ends k (m - 1) (some c) t in
      (if allowed k c then more else []) ++ stop m (place b (c ∷ t))

  -- The ends of the matches at a place, in the order of backtracking.
  unfoldable pub ends : Regex → Place → List Place
  unfolding allowed many_ends at_edge
  ends (one_of k) p = one_ends k p
  ends (many k m) p = many_ends k m p.before p.after
  ends edge p = if at_edge p then p ∷ [] else []
  ends (seq r s) p = flat_map (ends s) (ends r p)
  ends (either r s) p = ends r p ++ ends s p
  ends (repeat r m k) p = times (ends r) m k p

  abbrev pub match_at : Bool → Regex → Place → Option Place
  match_at must r p = first_end must (length p.after) (ends r p)

  -- The scan of `Pattern.sub`: from left to right, without overlap. After an empty match it goes
  -- on at the same place, for a match that is not empty.
  unfoldable pub scan : ℕ → Bool → Regex → Text → Place → Text
  unfolding ends
  scan zero must r new p = []
  scan (suc n) must r new p = elim (match_at must r p) [
    | some d ↦ new ++ scan n (length d.after == length p.after) r new d
    | none ↦ elim (p.after) [ [] ↦ [] | c ∷ t ↦ c ∷ scan n false r new (place (some c) t) ]
  ]

  unfoldable pub sub : Regex → Text → Text → Text
  unfolding scan
  sub r new t = scan (2 * length t + 2) false r new (start t)
