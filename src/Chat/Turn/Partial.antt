-- ===== src/Chat/Turn/Partial.antt =====
-- What is stored of a streamed turn that was interrupted or whose provider failed.
use llm_inference_logger.Prelude.{
  ℕ, ◌≡◌, refl, sym, ap, ◌∙◌, inl, inr, true, false, List, [], ◌∷◌, ◌++◌, append-nil, Text,
  if◌then◌else◌, is_some, Bool-cases,
}
use llm_inference_logger.Prelude.Outcome.{Result, ok, err}
use llm_inference_logger.Core.Errors.{Exn}
use llm_inference_logger.Domain.Enums.{MessageRole}
use llm_inference_logger.Db.Tables.{Db, find_conversation, find_message, Message}
use llm_inference_logger.Db.Session.{Conn, session, finish}
use llm_inference_logger.Db.Conversations.{append_message, in_order, strip}
use llm_inference_logger.Db.Conversations.Seq.{
  calm, appended, append_message-run, append_message-appends, IsNumbered,
}
use llm_inference_logger.Providers.Base.{Ending, raised}
use llm_inference_logger.Instrumentation.Wrapper.{is_empty}
use llm_inference_logger.Chat.Turn.{
  ChatService, Ask, Surroundings, conclude, record_assistant_turn, persist_partial, ChatStreamEvent,
  interrupted,
}

module _ {P : Type 0} where
  finish-calm :
      {A : Type 0} (before : Db P) (x : Result Exn A × Conn P) (a : A)
      → x.0 ≡ ok a
      → x.1.faults ≡ []
      → ((finish before x).0 ≡ ok a) × ((finish before x).1.db ≡ x.1.db)
  finish-calm before (ok b, c) a h e = (rw e h, rw e)
  finish-calm before (err x, c) a h e = cc

  module _ (service : ChatService) (ask : Ask) (s : Surroundings) where
    -- What the second transaction writes.
    abbrev reply : ℕ → Text → Db P → Message
    reply i content db = appended s.assistant_id i MessageRole.assistant content db s.second_now

    module _ (i : ℕ) (db : Db P) (now : ℕ)
        (known : is_some (find_conversation i db.conversations) ≡ true)
        (fresh : is_some (find_message s.assistant_id db.messages) ≡ false)
        (h : IsNumbered db.messages) where
      record_assistant_turn-calm :
          (content : Text)
          → ((record_assistant_turn service ask s i content (calm db now)).0
              ≡ ok (reply i content db))
            × (in_order i (record_assistant_turn service ask s i content (calm db now)).1.db
                ≡ in_order i db ++ reply i content db ∷ [])
      unfolding record_assistant_turn session
      record_assistant_turn-calm content =
          let ran =
            append_message-run s.assistant_id i MessageRole.assistant content db s.second_now known
              fresh h in
          let wrote =
            append_message-appends s.assistant_id i MessageRole.assistant content db s.second_now
              known fresh h in
          let done =
            finish-calm db
              (append_message s.assistant_id i MessageRole.assistant content (calm db s.second_now))
              (reply i content db) ran.0 ran.2 in
          (done.0, ap (in_order i) done.1 ∙ wrote.1)

      persist_partial-calm :
          (text : Text)
          → ((persist_partial service ask s i text (calm db now)).0 ≡ ok tt)
            × (in_order i (persist_partial service ask s i text (calm db now)).1.db
                ≡ in_order i db
                  ++ (if is_empty (strip text) then [] else reply i (strip text) db ∷ []))
      unfolding persist_partial
      persist_partial-calm text =
          let stored = record_assistant_turn-calm (strip text) in
          elim (Bool-cases (is_empty (strip text))) [
            | inl e ↦ simp e (refl, sym (append-nil (in_order i db)))
            | inr e ↦ simp e (rw stored.0 (refl, stored.1))
          ]

    interrupted-ok :
        (es : List ChatStreamEvent) (ending : Ending) (x : Result Exn (Unit {0}) × Conn P)
        → x.0 ≡ ok tt
        → interrupted service ask s es ending x ≡ (es, ending, x.1)
    interrupted-ok es ending (ok _, c) h = refl
    interrupted-ok es ending (err _, c) h = cc

    -- Text that was shown before the user left is kept: on a connection that serves every
    -- statement, the reply so far is stored without the white space around it, as the next message of
    -- the conversation, and the cancellation goes on. Nothing is stored of white space alone.
    pub conclude-cancelled :
        (i : ℕ) (text : Text) (db : Db P) (now : ℕ)
        → is_some (find_conversation i db.conversations) ≡ true
        → is_some (find_message s.assistant_id db.messages) ≡ false
        → IsNumbered db.messages
        → let (events, ending, c) =
            conclude service ask s i text (raised Exn.cancelled) (calm db now) in
          (events ≡ [])
          × (ending ≡ raised Exn.cancelled)
          × (in_order i c.db
              ≡ in_order i db
                ++ (if is_empty (strip text)
                    then []
                    else appended s.assistant_id i MessageRole.assistant
                        (strip text)
                        db
                        s.second_now
                      ∷ []))
    unfolding conclude
    conclude-cancelled i text db now known fresh h =
        let kept = persist_partial-calm i db now known fresh h text in
        let rest =
          interrupted-ok [] (raised Exn.cancelled)
            (persist_partial service ask s i text (calm db now)) kept.0 in
        (ap (λ x. x.0) rest, ap (λ x. x.1) rest, ap (λ x. in_order i x.2.db) rest ∙ kept.1)
