-- ===== src/Chat/Turn/InBand.antt =====
-- Which exceptions can leave a streamed turn.
use llm_inference_logger.Prelude.{
  ℕ, String, ◌≡◌, subst, inl, inr, true, List, arith, Text, Bool-cases,
}
use llm_inference_logger.Prelude.Outcome.{Result, ok, err, Exec, ◌>>=◌, >>=-cases, pure, is_ok}
use llm_inference_logger.Core.Errors.{
  Exn, app, other, provider_error, internal_error, not_found, validation_error,
  provider_not_configured, model_not_supported,
}
use llm_inference_logger.Domain.Enums.{MessageRole}
use llm_inference_logger.Db.Tables.{Db, Message, Conversation}
use llm_inference_logger.Db.Session.{Sql, Conn, session, statement, finish, next_fault}
use llm_inference_logger.Db.Session.Laws.{Fault-cases, Result-cases}
use llm_inference_logger.Db.Conversations.{
  append_message, insert_message, insert_at, select_next_seq, touch, get, strip,
}
use llm_inference_logger.Providers.Base.{Provider, Ending, finished, raised}
use llm_inference_logger.Chat.Turn.{
  ChatService, Ask, Surroundings, Site, stream, resolved, conclude, completion, interrupted,
  record_assistant_turn, persist_partial, ChatStreamEvent, converse, after_user_turn, traced,
  after_resolve, on_conn, request_of, record_user_turn, parts_of,
}
use llm_inference_logger.Instrumentation.Wrapper.{is_empty}

-- An exception that is not one of the program's own errors.
abbrev pub IsForeign : Exn → Type 0
IsForeign (app _) = ⊥
IsForeign _ = Unit

abbrev pub RaisesForeign : {A : Type 0} → Result Exn A → Type 0
RaisesForeign (ok _) = Unit
RaisesForeign (err e) = IsForeign e

-- How a generator stops that never raises one of the program's own errors.
abbrev pub EndsForeign : Ending → Type 0
EndsForeign finished = Unit
EndsForeign (raised e) = IsForeign e

>>=-Foreign :
    {S A B : Type 0} (m : Exec S Exn A) (f : A → Exec S Exn B) (s : S)
    → RaisesForeign (m s).0
    → ((a : A) → RaisesForeign (f a (m s).1).0)
    → RaisesForeign ((m >>= f) s).0
>>=-Foreign m f s h k =
    >>=-cases m f s (λ x. RaisesForeign x.0) (λ e r. subst RaisesForeign r h) (λ a _. k a)

module _ {P : Type 0} where
  statement-Foreign :
      {A : Type 0} (f : Db P → Result Exn (A × Db P)) (c : Conn P)
      → RaisesForeign (f c.db)
      → RaisesForeign (statement f c).0
  unfolding statement
  statement-Foreign f c h = elim (Fault-cases (next_fault c.faults)) [
    | inl s ↦
        rw (s, statement)
          (elim (Result-cases (f c.db)) [
            | inl ((a, db), e) ↦ simp e tt
            | inr (x, e) ↦ simp e (subst RaisesForeign e h)
          ])
    | inr (inl s) ↦ rw (s, statement) tt
    | inr (inr s) ↦ rw (s, statement) tt
  ]

  insert_message-Foreign : (m : Message) (db : Db P) → RaisesForeign (insert_message m db)
  unfolding insert_message
  insert_message-Foreign m db = ground arith

  append_message-Foreign :
      (mid i : ℕ) (role : MessageRole) (content : Text) (c : Conn P)
      → RaisesForeign (append_message mid i role content c).0
  unfolding append_message get
  append_message-Foreign mid i role content c =
      >>=-Foreign (get i) _ c (statement-Foreign _ c tt) (λ _.
        >>=-Foreign (select_next_seq i >>= insert_at mid i role content) _ (get i c).1
          (>>=-Foreign (select_next_seq i) (insert_at mid i role content) (get i c).1
            (statement-Foreign _ (get i c).1 tt)
            (λ n. statement-Foreign (insert_message _) _ (insert_message-Foreign _ _)))
          (λ m. >>=-Foreign (touch i) (λ _. pure m) _ (statement-Foreign _ _ tt) (λ _. tt)))

  finish-Foreign :
      {A : Type 0} (before : Db P) (x : Result Exn A × Conn P)
      → RaisesForeign x.0
      → RaisesForeign (finish before x).0
  finish-Foreign before (err e, c) h = h
  finish-Foreign before (ok a, c) h = elim (Fault-cases (next_fault c.faults)) [
    | inl s ↦ rw (s, RaisesForeign) tt
    | inr (inl s) ↦ rw (s, RaisesForeign) tt
    | inr (inr s) ↦ rw (s, RaisesForeign) tt
  ]

  session-Foreign :
      {A : Type 0} (now : ℕ) (body : Sql P A) (c : Conn P)
      → RaisesForeign (body (record c { now = now })).0
      → RaisesForeign (session now body c).0
  unfolding session
  session-Foreign now body c h = finish-Foreign c.db (body (record c { now = now })) h

  module _ (service : ChatService) (ask : Ask) (s : Surroundings) where
    record_assistant_turn-Foreign :
        (i : ℕ) (content : Text) (c : Conn P)
        → RaisesForeign (record_assistant_turn service ask s i content c).0
    unfolding record_assistant_turn
    record_assistant_turn-Foreign i content c =
        session-Foreign s.second_now _ c
          (append_message-Foreign s.assistant_id i MessageRole.assistant content _)

    persist_partial-Foreign :
        (i : ℕ) (t : Text) (c : Conn P) → RaisesForeign (persist_partial service ask s i t c).0
    unfolding persist_partial
    persist_partial-Foreign i t c = elim (Bool-cases (is_empty (strip t))) [
      | inl e ↦ simp e tt
      | inr e ↦ simp e (
          >>=-Foreign (record_assistant_turn service ask s i (strip t)) _ c
            (record_assistant_turn-Foreign i (strip t) c) (λ _. tt))
    ]

    completion-Foreign :
        (x : Result Exn Message × Conn P)
        → RaisesForeign x.0
        → EndsForeign (completion service ask s x).1
    completion-Foreign (ok m, c) h = tt
    completion-Foreign (err e, c) h = h

    interrupted-Foreign :
        (es : List ChatStreamEvent) (ending : Ending) (x : Result Exn (Unit {0}) × Conn P)
        → EndsForeign ending
        → RaisesForeign x.0
        → EndsForeign (interrupted service ask s es ending x).1
    interrupted-Foreign es ending (ok m, c) k h = k
    interrupted-Foreign es ending (err e, c) k h = h

    conclude-Foreign :
        (i : ℕ) (t : Text) (ending : Ending) (c : Conn P)
        → EndsForeign (conclude service ask s i t ending c).1
    unfolding conclude
    conclude-Foreign i t finished c = completion-Foreign _ (record_assistant_turn-Foreign i t c)
    conclude-Foreign i t (raised Exn.cancelled) c =
        interrupted-Foreign _ (raised Exn.cancelled) _ tt (persist_partial-Foreign i t c)
    conclude-Foreign i t (raised (app (provider_error m p r k))) c =
        interrupted-Foreign _ finished _ tt (persist_partial-Foreign i t c)
    conclude-Foreign i t (raised (app (internal_error m))) c = tt
    conclude-Foreign i t (raised (app (not_found m k))) c = tt
    conclude-Foreign i t (raised (app (validation_error m))) c = tt
    conclude-Foreign i t (raised (app (provider_not_configured m r a))) c = tt
    conclude-Foreign i t (raised (app (model_not_supported m r a b))) c = tt
    conclude-Foreign i t (raised Exn.generator_exit) c = tt
    conclude-Foreign i t (raised (other k m)) c = tt

    after_user_turn-Foreign :
        (n : String) (p : Provider) (m : String)
        (x : Result Exn (Conversation × Message × List Message) × Site P)
        → EndsForeign (after_user_turn service ask s n p m x).0.ending
    unfolding converse
    after_user_turn-Foreign n p m (ok turn, site) =
        let t = traced service s p turn.0.id true (request_of service.settings p m turn.2) in
        conclude-Foreign turn.0.id (parts_of t.yielded) t.ending site.conn
    after_user_turn-Foreign n p m (err (app e), site) = tt
    after_user_turn-Foreign n p m (err Exn.cancelled, site) = tt
    after_user_turn-Foreign n p m (err Exn.generator_exit, site) = tt
    after_user_turn-Foreign n p m (err (other k t), site) = tt

    after_resolve-Foreign :
        (x : Result Exn (String × Provider × String) × Site P)
        → is_ok x.0 ≡ true
        → EndsForeign (after_resolve service ask s x).0.ending
    after_resolve-Foreign (ok (n, p, m), site) h =
        after_user_turn-Foreign n p m (on_conn (record_user_turn service ask s) site)
    after_resolve-Foreign (err e, site) h = cc

    -- A streamed turn whose provider and model resolve never raises one of the program's own
    -- errors, whatever the database and the provider do: it reports them as events. What it raises
    -- is a cancellation, the closing of the generator, or another exception.
    pub stream-EndsForeign :
        (site : Site P)
        → is_ok (resolved service ask site).0 ≡ true
        → EndsForeign (stream service ask s site).0.ending
    unfolding stream
    stream-EndsForeign site h = after_resolve-Foreign (resolved service ask site) h
