-- ===== src/Api/Conversations/Laws.antt =====
-- What is left of a conversation that was deleted.
use llm_inference_logger.Prelude.{
  ℕ, ◌≡◌, refl, sym, ap, subst, ◌≢◌, inl, inr, false, not, Option, none, some, List, [], ◌∷◌, map,
  arith, ◌==◌, Bool-cases, keep,
}
use llm_inference_logger.Prelude.Outcome.{ok, err, pure, ◌>>=◌}
use llm_inference_logger.Core.Errors.{app, not_found}
use llm_inference_logger.Db.Tables.{Db, Conversation, Message, InferenceLog, find_conversation}
use llm_inference_logger.Db.Session.{Sql, Conn, session, statement}
use llm_inference_logger.Db.Conversations.{
  create, require, or_not_found, list_recent, count_conversations, messages, delete, delete_rows,
  in_order, of_conversation, forget, drop_ref, earlier_seq,
}
use llm_inference_logger.Prelude.Order.{order_by}
use llm_inference_logger.Db.Conversations
use llm_inference_logger.Db.Session
use llm_inference_logger.Db.Conversations.Seq.{calm}
use llm_inference_logger.Api.Conversations.{
  message_read, conversation_summary, get_conversation, delete_conversation,
}

module _ {P : Type 0} where
  delete_conversation-run :
      (now t i : ℕ) (db : Db P) (c : Conversation)
      → find_conversation i db.conversations ≡ some c
      → delete_conversation now i (calm db t) ≡ (ok 204, calm (delete_rows i db) now)
  unfolding delete_conversation session delete require Conversations.get statement
  delete_conversation-run now t i db c h =
      ap
        (λ o. Session.finish db (
          ((or_not_found i o >>= λ _. statement (λ d. ok (tt, delete_rows i d))) >>= λ _. pure 204)
            (calm db now)))
        h

  get_conversation-gone :
      (now t i : ℕ) (db : Db P)
      → find_conversation i db.conversations ≡ none
      → (get_conversation now i (calm db t)).0 ≡ err (app (not_found "Conversation not found" i))
  unfolding get_conversation session require Conversations.get statement
  get_conversation-gone now t i db h =
      ap
        (λ o.
          (Session.finish db (
            (or_not_found i o >>= λ c. messages i >>= λ ms.
            pure (record { summary = conversation_summary c; messages = map message_read ms }))
              (calm db now))).0)
        h

find-removed :
    (i : ℕ) (cs : List Conversation) → find_conversation i (keep (λ c. not (c.id == i)) cs) ≡ none
find-removed i [] = refl
find-removed i (c ∷ cs) = elim (Bool-cases (c.id == i)) [
  | inl e ↦ simp e (find-removed i cs)
  | inr e ↦ simp e (find-removed i cs)
]

others-kept :
    (i j : ℕ) (ms : List Message)
    → (j == i) ≡ false
    → of_conversation j (keep (λ m. not (m.conversation_id == i)) ms) ≡ of_conversation j ms
others-kept i j [] h = refl
others-kept i j (m ∷ ms) h = elim (Bool-cases (m.conversation_id == i)) [
  | inl e ↦
      let other : (m.conversation_id == j) ≡ false = ground (arith, e, h) in
      simp (e, other) (others-kept i j ms h)
  | inr e ↦ elim (Bool-cases (m.conversation_id == j)) [
    | inl f ↦ simp (e, f) (ap (◌∷◌ m) (others-kept i j ms h))
    | inr f ↦ simp (e, f) (others-kept i j ms h)
  ]
]

-- A log row that outlived a conversation: all that it says of the call is as it was.
pub record Outlives (i : ℕ) (before after : InferenceLog) : Type 0 where
  pub same :
      after
      ≡ record before { conversation_id = after.conversation_id; message_id = after.message_id }
  pub unnamed : after.conversation_id ≢ some i

unnamed-drop_ref : (i : ℕ) (o : Option ℕ) → drop_ref (λ k. k == i) o ≢ some i
unnamed-drop_ref i none h = absurd (ground (arith, h))
unnamed-drop_ref i (some k) h = absurd (ground (arith, h))

-- Each log row as a row that outlived a conversation.
abbrev pub AllOutlive : ℕ → List InferenceLog → List InferenceLog → Type 0
AllOutlive i [] [] = Unit
AllOutlive i [] (l ∷ ls) = ⊥
AllOutlive i (l ∷ ls) [] = ⊥
AllOutlive i (k ∷ ks) (l ∷ ls) = Outlives i k l × AllOutlive i ks ls

forget-AllOutlive :
    (i : ℕ) (gone : List Message) (ls : List InferenceLog)
    → AllOutlive i ls (map (forget i gone) ls)
forget-AllOutlive i gone [] = tt
forget-AllOutlive i gone (l ∷ ls) = (
  record { same = refl; unnamed = unnamed-drop_ref i l.conversation_id },
  forget-AllOutlive i gone ls,
)

-- What a deletion leaves.
pub record IsForgotten {P : Type 0} (i : ℕ) (before after : Db P) : Type 0 where
  pub later :
      (now t : ℕ)
      → (get_conversation now i (calm after t)).0 ≡ err (app (not_found "Conversation not found" i))
  pub others : (j : ℕ) → (j == i) ≡ false → in_order j after ≡ in_order j before
  pub logs : AllOutlive i before.inference_logs after.inference_logs

-- On a connection that serves every statement, deleting a conversation that exists answers 204.
-- Afterwards it is not found, every other conversation reads as before, and every log row is still
-- there with all that it says of its call, but names the conversation no more.
pub delete_conversation-IsForgotten :
    {P : Type 0} (now t i : ℕ) (db : Db P) (c : Conversation)
    → find_conversation i db.conversations ≡ some c
    → let out = delete_conversation now i (calm db t) in
      (out.0 ≡ ok 204) × IsForgotten i db out.1.db
unfolding delete_rows
delete_conversation-IsForgotten now t i db c h =
    let ran = delete_conversation-run now t i db c h in
    (
      ap (λ z. z.0) ran,
      subst (λ d. IsForgotten i db d) (sym (ap (λ z. z.1.db) ran))
          (record {
            later = λ n u.
                get_conversation-gone n u i (delete_rows i db) (find-removed i db.conversations);
            others = λ j apart. ap (order_by earlier_seq) (others-kept i j db.messages apart);
            logs = forget-AllOutlive i (of_conversation i db.messages) db.inference_logs;
          }),
    )
