-- ===== src/Chat/Turn/Opens.antt =====
-- The units of work of a turn find and keep the conversation that the turn is in.
use llm_inference_logger.Prelude.{
  ℕ, ◌≡◌, refl, sym, ap, ◌∙◌, subst, inl, inr, true, Option, none, some, List, [], ◌∷◌, ◌++◌, arith,
  Text, is_some, Bool-cases,
}
use llm_inference_logger.Chat.Turn.{
  ChatService, Ask, Surroundings, open_conversation, record_user_turn, record_assistant_turn,
  persist_partial, conclude, ChatStreamEvent, completion, interrupted,
}
use llm_inference_logger.Prelude.Outcome.{Result, ok, err, >>=-cases, ◌>>=◌}
use llm_inference_logger.Db.Tables.{Db, Conversation, Message, find_conversation}
use llm_inference_logger.Core.Errors.{
  Exn, app, provider_error, internal_error, not_found, other, validation_error,
  provider_not_configured, model_not_supported,
}
use llm_inference_logger.Db.Session.{Conn, finish, session, next_fault, Sql, statement}
use llm_inference_logger.Db.Conversations.Known.{
  Knows, append_message-Knows, found-id, ensure_title-Knows, messages-Knows, find-created,
}
use llm_inference_logger.Db.Conversations.{
  create, require, get, strip, append_message, ensure_title, or_not_found, messages,
}
use llm_inference_logger.Db.Session.Keeps.{Keeps, session-Keeps, bind-Keeps, pure-Keeps}
use llm_inference_logger.Db.Session.Laws.{Fault-cases, statement-reads, Result-cases}
use llm_inference_logger.Instrumentation.Wrapper.{is_empty}
use llm_inference_logger.Domain.Enums.{MessageRole}
use llm_inference_logger.Providers.Base.{finished, Ending, raised}

-- The conversation that was asked for, if one was.
abbrev pub Continues : Option ℕ → ℕ → Type 0
Continues none k = Unit
Continues (some i) k = k ≡ i

-- What a unit of work returned names a conversation that is in the tables.
abbrev pub OpensKnown : {P A : Type 0} → (A → ℕ) → Result Exn A × Conn P → Type 0
OpensKnown id_of (ok a, c) = Knows (id_of a) c.db
OpensKnown id_of (err _, c) = Unit

module _ {P A : Type 0} (id_of : A → ℕ) where
  pub opened :
      (x : Result Exn A × Conn P) (a : A) → OpensKnown id_of x → x.0 ≡ ok a → Knows (id_of a) x.1.db
  opened (ok b, c) a h e =
      let same : b ≡ a = ground (arith, e) in subst (λ y. Knows (id_of y) c.db) same h
  opened (err b, c) a h e = absurd (ground (arith, e))

  pub statement-OpensKnown :
      (f : Db P → Result Exn (A × Db P))
      → ((db : Db P) (a : A) (db' : Db P) → f db ≡ ok (a, db') → Knows (id_of a) db')
      → (c : Conn P) → OpensKnown id_of (statement f c)
  unfolding statement
  statement-OpensKnown f k c = elim (Fault-cases (next_fault c.faults)) [
    | inl s ↦ elim (Result-cases (f c.db)) [
      | inl ((a, db), e) ↦ rw (s, statement) (rw e (k c.db a db e))
      | inr (x, e) ↦ rw (s, statement) (rw e tt)
    ]
    | inr (inl s) ↦ rw (s, statement) tt
    | inr (inr s) ↦ rw (s, statement) tt
  ]

  pub bind-OpensKnown :
      {B : Type 0} (i : ℕ) (m : Sql P B) (f : B → Sql P A)
      → Keeps (Knows i) m
      → ((b : B) (c : Conn P) → Knows i c.db → OpensKnown id_of (f b c))
      → (c : Conn P) → Knows i c.db
      → OpensKnown id_of ((m >>= f) c)
  bind-OpensKnown i m f k l c h =
      >>=-cases m f c (OpensKnown id_of) (λ e r. tt) (λ b r. l b _ (k c h))

  pub finish-OpensKnown :
      (before : Db P) (x : Result Exn A × Conn P)
      → OpensKnown id_of x
      → OpensKnown id_of (finish before x)
  finish-OpensKnown before (err e, c) h = tt
  finish-OpensKnown before (ok a, c) h = elim (Fault-cases (next_fault c.faults)) [
    | inl e ↦ rw (e, finish) h
    | inr (inl e) ↦ rw (e, finish) tt
    | inr (inr e) ↦ rw (e, finish) tt
  ]

abbrev pub id_of_row : Conversation → ℕ
id_of_row c = c.id

abbrev pub id_of_turn : Conversation × Message × List Message → ℕ
id_of_turn x = x.0.id

module _ {P : Type 0} (service : ChatService) (ask : Ask) (s : Surroundings) where
  pub create-OpensKnown :
      (i : ℕ) (title : Option Text) (c : Conn P) → OpensKnown id_of_row (create i title c)
  unfolding create
  create-OpensKnown i title c =
      statement-OpensKnown id_of_row _
        (λ db a db' e.
          let rows : db'.conversations ≡ db.conversations ++ a ∷ [] = ground (arith, e) in
          subst (λ cs. is_some (find_conversation a.id cs) ≡ true) (sym rows)
            (find-created db.conversations a))
        c

  pub require_found :
      (i : ℕ) (found : Option Conversation) (c : Conn P)
      → found ≡ find_conversation i c.db.conversations
      → OpensKnown id_of_row (or_not_found i found c)
  require_found i none c e = tt
  require_found i (some x) c e =
      let same = found-id i c.db.conversations x (sym e) in
      subst (λ k. is_some (find_conversation k c.db.conversations) ≡ true) (sym same)
        (rw (← e) refl)

  pub require-OpensKnown : (i : ℕ) (c : Conn P) → OpensKnown id_of_row (require i c)
  unfolding require get
  require-OpensKnown i c =
      let read = statement-reads (λ db. find_conversation i db.conversations) c in
      >>=-cases (get i) (or_not_found i) c (OpensKnown id_of_row) (λ e r. tt)
        (λ found r.
          require_found i found (get i c).1
            (read.1 found r ∙ ap (λ db. find_conversation i db.conversations) (sym read.0)))

  open_conversation-OpensKnown :
      (i : Option ℕ) (c : Conn P) → OpensKnown id_of_row (open_conversation service ask s i c)
  open_conversation-OpensKnown none c = create-OpensKnown s.new_conversation none c
  open_conversation-OpensKnown (some i) c = require-OpensKnown i c

  pub record_user_turn-OpensKnown :
      (c : Conn P) → OpensKnown id_of_turn (record_user_turn service ask s c)
  unfolding record_user_turn session
  record_user_turn-OpensKnown c = finish-OpensKnown id_of_turn c.db _ (
      let began = record c { now = s.first_now } in
      >>=-cases (open_conversation service ask s ask.conversation_id) _ began
        (OpensKnown id_of_turn) (λ e r. tt)
        (λ conv r.
          let i = conv.id in
          bind-OpensKnown id_of_turn i (append_message s.user_id i MessageRole.user ask.content) _
            (append_message-Knows i s.user_id i MessageRole.user ask.content)
            (λ message.
              bind-OpensKnown id_of_turn i (ensure_title i ask.content) _
                (ensure_title-Knows i i ask.content)
                (λ _.
                  bind-OpensKnown id_of_turn i (messages i) _ (messages-Knows i i)
                    (λ history c' h. h)))
            _ (opened id_of_row _ conv (open_conversation-OpensKnown ask.conversation_id began) r)))

  pub record_assistant_turn-Knows :
      (j i : ℕ) (content : Text)
      → Keeps (Knows j) (record_assistant_turn {P = P} service ask s i content)
  unfolding record_assistant_turn
  record_assistant_turn-Knows j i content =
      session-Keeps (Knows j) s.second_now _
        (append_message-Knows j s.assistant_id i MessageRole.assistant content)

  pub persist_partial-Knows :
      (j i : ℕ) (t : Text) → Keeps (Knows j) (persist_partial {P = P} service ask s i t)
  unfolding persist_partial
  persist_partial-Knows j i t c h = elim (Bool-cases (is_empty (strip t))) [
    | inl e ↦ rw e h
    | inr e ↦ rw e (
        bind-Keeps (Knows j) (record_assistant_turn service ask s i (strip t)) _
          (record_assistant_turn-Knows j i (strip t)) (λ _. pure-Keeps (Knows j) tt) c h)
  ]

  pub completion-Knows :
      (j : ℕ) (x : Result Exn Message × Conn P)
      → Knows j x.1.db
      → Knows j (completion service ask s x).2.db
  completion-Knows j (ok m, c) h = h
  completion-Knows j (err e, c) h = h

  pub interrupted-Knows :
      (j : ℕ) (es : List ChatStreamEvent) (ending : Ending) (x : Result Exn (Unit {0}) × Conn P)
      → Knows j x.1.db
      → Knows j (interrupted service ask s es ending x).2.db
  interrupted-Knows j es ending (ok _, c) h = h
  interrupted-Knows j es ending (err e, c) h = h

  pub conclude-Knows :
      (j i : ℕ) (t : Text) (ending : Ending) (c : Conn P)
      → Knows j c.db
      → Knows j (conclude service ask s i t ending c).2.db
  unfolding conclude
  conclude-Knows j i t finished c h = completion-Knows j _ (record_assistant_turn-Knows j i t c h)
  conclude-Knows j i t (raised Exn.cancelled) c h =
      interrupted-Knows j [] _ _ (persist_partial-Knows j i t c h)
  conclude-Knows j i t (raised (app (provider_error m p r k))) c h =
      interrupted-Knows j _ _ _ (persist_partial-Knows j i t c h)
  conclude-Knows j i t (raised (app (internal_error m))) c h = h
  conclude-Knows j i t (raised (app (not_found m k))) c h = h
  conclude-Knows j i t (raised (app (validation_error m))) c h = h
  conclude-Knows j i t (raised (app (provider_not_configured m r a))) c h = h
  conclude-Knows j i t (raised (app (model_not_supported m r a b))) c h = h
  conclude-Knows j i t (raised Exn.generator_exit) c h = h
  conclude-Knows j i t (raised (other k m)) c h = h
