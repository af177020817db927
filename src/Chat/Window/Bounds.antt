-- ===== src/Chat/Window/Bounds.antt =====
-- The window is the longest tail of the history that both bounds allow.
use llm_inference_logger.Prelude.{
  ℕ, zero, suc, ◌+◌, ◌-◌, ◌≤◌, ◌<◌, ◌≡◌, refl, sym, ap, ◌∙◌, subst, ◌⊎◌, inl, inr, true, false,
  List, [], ◌∷◌, ◌++◌, reverse, append-nil, append_assoc, reverse-append, reverse-reverse, arith,
  leb, Bool-cases, length, take, drop, length-append, take-append-drop, length-reverse, length-drop,
}
use llm_inference_logger.Db.Tables.{Message}
use llm_inference_logger.Chat.Window.{keep_within, size, recent_window}

abbrev pub total_size : List Message → ℕ
total_size [] = 0
total_size (m ∷ ms) = size m + total_size ms

-- Why the loop left off before `ms`, having spent `spent`.
abbrev LeftOff : ℕ → ℕ → List Message → Type 0
LeftOff max_chars spent [] = Unit
LeftOff max_chars spent (m ∷ ms) = max_chars < spent + size m

-- The messages that the loop looked past, after those that it kept.
record Split (max_chars spent : ℕ) (ms kept : List Message) : Type 0 where
  left : List Message
  parts : ms ≡ kept ++ left
  why : LeftOff max_chars (spent + total_size kept) left

keep_within-Split :
    (max_chars spent : ℕ) (ms : List Message)
    → Split max_chars spent ms (keep_within max_chars false spent ms)
unfolding keep_within
keep_within-Split n spent [] = record { left = []; parts = refl; why = tt }
keep_within-Split n spent (m ∷ ms) = elim (Bool-cases (leb (spent + size m) n)) [
  | inl fits ↦
      let s = keep_within-Split n (spent + size m) ms in
      rw fits (record {
        left = s.left;
        parts = ap (◌∷◌ m) s.parts;
        why = subst (λ k. LeftOff n k s.left) (omega arith) s.why;
      })
  | inr full ↦ rw full (record { left = m ∷ ms; parts = refl; why = ground arith })
]

keep_within-le :
    (max_chars spent : ℕ) (ms : List Message)
    → spent ≤ max_chars
    → spent + total_size (keep_within max_chars false spent ms) ≤ max_chars
unfolding keep_within
keep_within-le n spent [] h = omega arith
keep_within-le n spent (m ∷ ms) h = ground (arith, keep_within-le n (spent + size m) ms)

-- With nothing left the loop keeps no message that has a character.
keep_within-full :
    (max_chars spent : ℕ) (ms : List Message)
    → max_chars < spent
    → keep_within max_chars false spent ms ≡ []
unfolding keep_within
keep_within-full n spent [] h = refl
keep_within-full n spent (m ∷ ms) h = ground arith

total_size-append : (xs ys : List Message) → total_size (xs ++ ys) ≡ total_size xs + total_size ys
total_size-append [] ys = omega arith
total_size-append (x ∷ xs) ys = omega (arith, total_size-append xs ys)

total_size-reverse : (xs : List Message) → total_size (reverse xs) ≡ total_size xs
total_size-reverse [] = refl
total_size-reverse (x ∷ xs) = omega (
  arith,
  ap total_size (reverse-append (x ∷ []) xs),
  total_size-append (reverse xs) (x ∷ []),
  total_size-reverse xs,
)

leb-false : {a b : ℕ} → leb a b ≡ false → b < a
leb-false h = ground arith

empty_of_length : (xs : List Message) → length xs ≡ 0 → xs ≡ []
empty_of_length [] h = refl
empty_of_length (x ∷ xs) h = absurd (omega arith)

-- What `recent_window` promises of a history, for a cap of at least one message.
pub record IsWindow (history : List Message) (max_messages max_chars : ℕ) (window : List Message)
    : Type 0 where
  -- it is a tail of the history
  pub older : List Message
  pub tail : history ≡ older ++ window
  -- its length is capped, and its size too, but for a lone message
  pub few : length window ≤ max_messages
  pub small : (total_size window ≤ max_chars) ⊎ (length window ≡ 1)
  -- only an empty history has an empty window
  pub newest : window ≡ [] → history ≡ []
  -- it cannot be longer: nothing is left out, or the count is reached, or the next message does not fit
  pub longest :
      (older ≡ [])
      ⊎ (length window ≡ max_messages)
      ⊎ ((q : List Message) × (m : Message) × (older ≡ q ++ m ∷ [])
          × (max_chars < total_size window + size m))

module _ (history : List Message) (n max_chars : ℕ) where
  abbrev cut : ℕ
  cut = length history - suc n

  -- The window of a history whose capped tail, read from the newest, is `m ∷ ms`.
  module _ (m : Message) (ms : List Message) (e : reverse (drop cut history) ≡ m ∷ ms) where
    abbrev more : List Message
    more = keep_within max_chars false (size m) ms

    split : Split max_chars (size m) ms more
    split = keep_within-Split max_chars (size m) ms

    drop-eq : drop cut history ≡ reverse (Split.left split) ++ reverse (m ∷ more)
    drop-eq =
        sym (reverse-reverse (drop cut history))
        ∙ ap reverse (e ∙ ap (◌∷◌ m) (Split.parts split))
        ∙ reverse-append (m ∷ more) (Split.left split)

    abbrev seen : List Message
    seen = reverse (m ∷ more)

    window-tail : history ≡ (take cut history ++ reverse (Split.left split)) ++ seen
    window-tail =
        sym (take-append-drop cut history)
        ∙ ap (◌++◌ (take cut history)) drop-eq
        ∙ sym (append_assoc (take cut history) (reverse (Split.left split)) seen)

    lengths : length (reverse (Split.left split)) + length seen ≡ length history - cut
    lengths = omega (
      arith,
      length-append (reverse (Split.left split)) seen,
      ap length drop-eq,
      length-drop cut history,
    )

    window-small : (total_size seen ≤ max_chars) ⊎ (length seen ≡ 1)
    window-small = elim (Bool-cases (leb (size m) max_chars)) [
      | inl fits ↦ inl (
          omega (
            arith,
            total_size-reverse (m ∷ more),
            keep_within-le max_chars (size m) ms (ground arith),
          ))
      | inr large ↦ inr (
          omega (
            arith,
            length-reverse (m ∷ more),
            ap length (keep_within-full max_chars (size m) ms (ground arith)),
          ))
    ]

    window-longest :
        (l : List Message)
        → Split.left split ≡ l
        → LeftOff max_chars (size m + total_size more) l
        → ((take cut history ++ reverse (Split.left split)) ≡ [])
          ⊎ (length seen ≡ suc n)
          ⊎ ((q : List Message) × (x : Message) × ((take cut history ++ reverse (Split.left split))
                ≡ q ++ x ∷ [])
              × (max_chars < total_size seen + size x))
    window-longest [] none_left why = elim (Bool-cases (leb (length history) (suc n))) [
      | inl all ↦ inl (
          subst (λ k. (take k history ++ reverse (Split.left split)) ≡ []) {x = 0} {y = cut}
            (ground arith) (ap reverse none_left))
      | inr longer ↦ inr (
          inl (
            omega (
              arith,
              lengths,
              ap (λ (r : List Message). length (reverse r)) none_left,
              leb-false longer,
            )))
    ]
    window-longest (x ∷ l) some_left why = inr (
        inr (
          take cut history ++ reverse l,
          x,
          ap (λ r. take cut history ++ reverse r) some_left
              ∙ ap (◌++◌ (take cut history)) (reverse-append (x ∷ []) l)
              ∙ sym (append_assoc (take cut history) (reverse l) (x ∷ [])),
          omega (arith, total_size-reverse (m ∷ more)),
        ))

    seen-IsWindow : IsWindow history (suc n) max_chars seen
    seen-IsWindow = record {
      older = take cut history ++ reverse (Split.left split);
      tail = window-tail;
      few = omega (arith, lengths);
      small = window-small;
      newest = λ none. absurd (omega (arith, length-reverse (m ∷ more), ap length none));
      longest = window-longest (Split.left split) refl (Split.why split);
    }

  within-IsWindow :
      (rev : List Message)
      → reverse (drop cut history) ≡ rev
      → IsWindow history (suc n) max_chars (reverse (keep_within max_chars true 0 rev))
  unfolding keep_within
  within-IsWindow (m ∷ ms) e =
      subst
        (λ k. IsWindow history (suc n) max_chars (reverse (m ∷ keep_within max_chars false k ms)))
        {x = size m} {y = 0 + size m} (omega arith) (seen-IsWindow m ms e)
  within-IsWindow [] e =
      let none : history ≡ [] =
        empty_of_length history (
          omega (arith, length-reverse (drop cut history), ap length e, length-drop cut history)) in
      record {
        older = history;
        tail = sym (append-nil history);
        few = omega arith;
        small = inl (omega arith);
        newest = λ _. none;
        longest = inl none;
      }

-- For a cap of at least one message the window is a tail of the history within both bounds, but for
-- a newest message that is too large by itself, which is kept. It is empty only for an empty
-- history, and no longer tail would do.
pub recent_window-IsWindow :
    (history : List Message) (max_messages max_chars : ℕ)
    → 1 ≤ max_messages
    → IsWindow history max_messages max_chars (recent_window history max_messages max_chars)
unfolding recent_window
recent_window-IsWindow history zero max_chars h = absurd (omega arith)
recent_window-IsWindow history (suc n) max_chars h =
    within-IsWindow history n max_chars (reverse (drop (length history - suc n) history)) refl
