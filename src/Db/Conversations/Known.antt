-- ===== src/Db/Conversations/Known.antt =====
-- A conversation that exists keeps existing under every statement but a deletion.
use llm_inference_logger.Prelude.{
  ℕ, ◌≡◌, refl, ◌∙◌, subst, inl, inr, true, some, List, [], ◌∷◌, ◌++◌, arith, Text, ◌==◌,
  if◌then◌else◌, is_some, Bool-cases, ==_refl,
}
use llm_inference_logger.Db.Tables.{Conversation, Db, find_conversation}
use llm_inference_logger.Db.Conversations.{
  ensure_title, insert_message, messages, append_message, touch, get, insert_at,
  change_conversation, select_next_seq,
}
use llm_inference_logger.Db.Session.Keeps.{
  Keeps, read-Keeps, bind-Keeps, statement-Keeps, pure-Keeps,
}
use llm_inference_logger.Domain.Enums.{MessageRole}
use llm_inference_logger.Prelude.Outcome.{◌>>=◌, Result, ok}
use llm_inference_logger.Core.Errors.{Exn}

-- The row of a conversation is there.
abbrev pub Knows : {P : Type 0} → ℕ → Db P → Type 0
Knows i db = is_some (find_conversation i db.conversations) ≡ true

find-append :
    (i : ℕ) (cs : List Conversation) (c : Conversation)
    → is_some (find_conversation i cs) ≡ true
    → is_some (find_conversation i (cs ++ c ∷ [])) ≡ true
find-append i [] c h = absurd (ground arith)
find-append i (d ∷ cs) c h = elim (Bool-cases (d.id == i)) [
  | inl e ↦ rw e refl
  | inr e ↦ rw e (find-append i cs c (ground (arith, h)))
]

pub find-created :
    (cs : List Conversation) (c : Conversation)
    → is_some (find_conversation c.id (cs ++ c ∷ [])) ≡ true
find-created [] c = rw (==_refl c.id) refl
find-created (d ∷ cs) c = elim (Bool-cases (d.id == c.id)) [
  | inl e ↦ rw e refl
  | inr e ↦ rw e (find-created cs c)
]

pub found-id :
    (i : ℕ) (cs : List Conversation) (c : Conversation) → find_conversation i cs ≡ some c → c.id ≡ i
found-id i [] c h = absurd (ground arith)
found-id i (d ∷ cs) c h = elim (Bool-cases (d.id == i)) [
  | inl e ↦ ground (arith, h)
  | inr e ↦ found-id i cs c (ground (arith, h))
]

find-change :
    (f : Conversation → Conversation) (same : (c : Conversation) → (f c).id ≡ c.id) (i j : ℕ)
    (cs : List Conversation)
    → is_some (find_conversation i (change_conversation f j cs)) ≡ is_some (find_conversation i cs)
find-change f same i j [] = refl
find-change f same i j (c ∷ cs) =
    let id' : (if c.id == j then f c else c).id ≡ c.id = elim (Bool-cases (c.id == j)) [
      | inl e ↦ rw e (same c)
      | inr e ↦ rw e refl
    ] in
    elim (Bool-cases (c.id == i)) [
      | inl e ↦ rw (id', e) refl
      | inr e ↦ rw (id', e) (find-change f same i j cs)
    ]

module _ {P : Type 0} (i : ℕ) where
  change-Knows :
      (f : Conversation → Conversation)
      → ((c : Conversation) → (f c).id ≡ c.id)
      → (j : ℕ) (db : Db P) (a : Unit {0}) (db' : Db P) → Knows i db
      → ◌≡◌ {A = Result Exn (Unit {0} × Db P)}
          (ok (tt, record db { conversations = change_conversation f j db.conversations }))
          (ok (a, db'))
      → Knows i db'
  change-Knows f same j db a db' h e =
      let changed : Db P = record db { conversations = change_conversation f j db.conversations } in
      let k : Knows i changed = find-change f same i j db.conversations ∙ h in
      let same_db : changed ≡ db' = ground (arith, e) in subst (Knows i) same_db k

  touch-Knows : (j : ℕ) → Keeps {P = P} (Knows i) (touch j)
  touch-Knows j c = statement-Keeps (Knows i) _ (change-Knows _ (λ x. refl) j) c

  insert_at-Knows :
      (mid j : ℕ) (role : MessageRole) (content : Text) (n : ℕ)
      → Keeps {P = P} (Knows i) (insert_at mid j role content n)
  unfolding insert_message
  insert_at-Knows mid j role content n c =
      statement-Keeps (Knows i) _ (λ db a db' h e. ground arith) c

  pub append_message-Knows :
      (mid j : ℕ) (role : MessageRole) (content : Text)
      → Keeps {P = P} (Knows i) (append_message mid j role content)
  unfolding append_message get
  append_message-Knows mid j role content =
      bind-Keeps (Knows i) (get j) _ (read-Keeps (Knows i) _) (λ _.
        bind-Keeps (Knows i) (select_next_seq j >>= insert_at mid j role content) _
          (bind-Keeps (Knows i) (select_next_seq j) _ (read-Keeps (Knows i) _)
            (insert_at-Knows mid j role content))
          (λ m. bind-Keeps (Knows i) (touch j) _ (touch-Knows j) (λ _. pure-Keeps (Knows i) m)))

  pub ensure_title-Knows : (j : ℕ) (source : Text) → Keeps {P = P} (Knows i) (ensure_title j source)
  unfolding ensure_title
  ensure_title-Knows j source = statement-Keeps (Knows i) _ (change-Knows _ (λ x. refl) j)

  pub messages-Knows : (j : ℕ) → Keeps {P = P} (Knows i) (messages j)
  unfolding messages
  messages-Knows j = read-Keeps (Knows i) _
