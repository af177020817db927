-- ===== src/Db/Conversations/Seq.antt =====
-- The positions of the messages of a conversation.
use llm_inference_logger.Prelude.{
  ℕ, suc, ◌+◌, ◌≤◌, ◌≡◌, refl, sym, ap, ◌∙◌, subst, ◌≢◌, inl, inr, true, false, List, [], ◌∷◌, ◌++◌,
  append-nil, arith, Text, ◌==◌, is_some, Bool-cases, length, ==_iff, ==_refl,
}
use llm_inference_logger.Prelude.Order.{order_by, insert_sorted}
use llm_inference_logger.Domain.Enums.{MessageRole}
use llm_inference_logger.Db.Tables.{Db, Message, find_conversation, find_message}
use llm_inference_logger.Db.Session.{statement, Conn}
use llm_inference_logger.Db.Conversations.{
  append_message, insert_message, in_order, of_conversation, next_seq, taken, earlier_seq, get,
  touch, select_next_seq, insert_at,
}
use llm_inference_logger.Prelude.Outcome.{ok, >>=-cases, ◌>>◌, ◌>>=◌, pure}
use llm_inference_logger.Db.Session.Laws.{statement-reads, statement-keeps}

-- Rows numbered from `n` on, one by one.
abbrev pub NumberedFrom : ℕ → List Message → Type 0
NumberedFrom n [] = Unit
NumberedFrom n (m ∷ ms) = (m.seq ≡ n) × NumberedFrom (suc n) ms

-- The messages of every conversation are numbered from 0 without a gap.
abbrev pub IsNumbered : List Message → Type 0
IsNumbered ms = (i : ℕ) → NumberedFrom 0 (of_conversation i ms)

next_seq-numbered :
    (n : ℕ) (m : Message) (ms : List Message)
    → NumberedFrom n (m ∷ ms)
    → next_seq (m ∷ ms) ≡ n + suc (length ms)
unfolding next_seq
next_seq-numbered n m [] h = omega (arith, h.0)
next_seq-numbered n m (k ∷ ms) h = omega (arith, h.0, next_seq-numbered (suc n) k ms h.1)

next_seq-length : (ms : List Message) → NumberedFrom 0 ms → next_seq ms ≡ length ms
unfolding next_seq
next_seq-length [] h = refl
next_seq-length (m ∷ ms) h = omega (arith, next_seq-numbered 0 m ms h)

taken-numbered :
    (n p : ℕ) (ms : List Message) → NumberedFrom n ms → n + length ms ≤ p → taken p ms ≡ false
taken-numbered n p [] h room = refl
taken-numbered n p (m ∷ ms) h room =
    rw (taken-numbered (suc n) p ms h.1 (omega arith)) (ground (arith, h.0))

append-numbered :
    (n : ℕ) (ms : List Message) (m : Message)
    → NumberedFrom n ms
    → m.seq ≡ n + length ms
    → NumberedFrom n (ms ++ m ∷ [])
append-numbered n [] m h e = (omega arith, tt)
append-numbered n (k ∷ ms) m h e = (h.0, append-numbered (suc n) ms m h.1 (omega arith))

order_by-numbered : (n : ℕ) (ms : List Message) → NumberedFrom n ms → order_by earlier_seq ms ≡ ms
unfolding order_by insert_sorted
order_by-numbered n [] h = refl
order_by-numbered n (m ∷ []) h = refl
order_by-numbered n (m ∷ k ∷ ms) h =
    ap (insert_sorted earlier_seq m) (order_by-numbered (suc n) (k ∷ ms) h.1)
    ∙ ground (arith, h.0, h.1.0)

of_conversation-append :
    (i : ℕ) (ms : List Message) (m : Message)
    → of_conversation i (ms ++ m ∷ []) ≡ of_conversation i ms ++ of_conversation i (m ∷ [])
of_conversation-append i [] m = refl
of_conversation-append i (k ∷ ms) m = elim (Bool-cases (k.conversation_id == i)) [
  | inl e ↦ rw e (ap (◌∷◌ k) (of_conversation-append i ms m))
  | inr e ↦ rw e (of_conversation-append i ms m)
]

of_conversation-own :
    (i : ℕ) (ms : List Message) (m : Message)
    → (m.conversation_id == i) ≡ true
    → of_conversation i (ms ++ m ∷ []) ≡ of_conversation i ms ++ m ∷ []
of_conversation-own i ms m own = of_conversation-append i ms m ∙ rw own refl

of_conversation-other :
    (j : ℕ) (ms : List Message) (m : Message)
    → (m.conversation_id == j) ≡ false
    → of_conversation j (ms ++ m ∷ []) ≡ of_conversation j ms
of_conversation-other j ms m other =
    of_conversation-append j ms m ∙ rw other (append-nil (of_conversation j ms))

-- A row of a conversation is added to its rows alone.
append-IsNumbered :
    (ms : List Message) (m : Message)
    → IsNumbered ms
    → m.seq ≡ length (of_conversation m.conversation_id ms)
    → IsNumbered (ms ++ m ∷ [])
append-IsNumbered ms m h e j = elim (Bool-cases (m.conversation_id == j)) [
  | inl here ↦
      let same : m.conversation_id ≡ j = ground (arith, ==_iff m.conversation_id j) in
      rw (of_conversation-append j ms m) (
        rw here (
          append-numbered 0 (of_conversation j ms) m (h j)
            (subst (λ z. m.seq ≡ 0 + length (of_conversation z ms)) same (omega (arith, e)))))
  | inr there ↦
      rw (of_conversation-append j ms m) (rw there (rw (append-nil (of_conversation j ms)) (h j)))
]

module _ {P : Type 0} where
  abbrev pub calm : Db P → ℕ → Conn P
  calm db now = record { db = db; now = now; faults = [] }

  -- The row that an append writes.
  abbrev pub appended : ℕ → ℕ → MessageRole → Text → Db P → ℕ → Message
  appended mid i role content db now = record {
    id = mid;
    conversation_id = i;
    role = role;
    content = content;
    seq = length (of_conversation i db.messages);
    created_at = now;
  }

  -- A run of an append on a connection that serves every statement.
  pub append_message-run :
      (mid i : ℕ) (role : MessageRole) (content : Text) (db : Db P) (now : ℕ)
      → is_some (find_conversation i db.conversations) ≡ true
      → is_some (find_message mid db.messages) ≡ false
      → IsNumbered db.messages
      → ((append_message mid i role content (calm db now)).0
          ≡ ok (appended mid i role content db now))
        × ((append_message mid i role content (calm db now)).1.db.messages
            ≡ db.messages ++ appended mid i role content db now ∷ [])
        × ((append_message mid i role content (calm db now)).1.faults ≡ [])
        × ((append_message mid i role content (calm db now)).1.now ≡ now)
  unfolding append_message insert_message statement get
  append_message-run mid i role content db now known fresh h =
      rw (next_seq-length (of_conversation i db.messages) (h i)) (
        rw known (
          rw fresh (
            rw
              (taken-numbered 0 (length (of_conversation i db.messages))
                (of_conversation i db.messages) (h i) (omega arith))
              (refl, refl, refl, refl))))

  -- On a connection that serves every statement (a text that Postgres does not take is a statement
  -- that it refuses), where the messages of every conversation are
  -- numbered from 0 without a gap and no message has the new id, an append to a conversation that
  -- exists returns the message it wrote, which takes the next position. The conversation then reads
  -- as before with this message at the end, and every other conversation reads as before.
  pub append_message-appends :
      (mid i : ℕ) (role : MessageRole) (content : Text) (db : Db P) (now : ℕ)
      → is_some (find_conversation i db.conversations) ≡ true
      → is_some (find_message mid db.messages) ≡ false
      → IsNumbered db.messages
      → let m = appended mid i role content db now in
        let (r, conn) = append_message mid i role content (calm db now) in
        (r ≡ ok m)
        × (in_order i conn.db ≡ in_order i db ++ m ∷ [])
        × ((j : ℕ) → j ≢ i → in_order j conn.db ≡ in_order j db)
  append_message-appends mid i role content db now known fresh h =
      let run = append_message-run mid i role content db now known fresh h in
      let m = appended mid i role content db now in
      (
        run.0,
        rw run.1 (
            order_by-numbered 0 (of_conversation i (db.messages ++ m ∷ []))
              (append-IsNumbered db.messages m h refl i)
            ∙ of_conversation-own i db.messages m (==_refl i)
            ∙ ap (λ ms. ms ++ m ∷ [])
                (sym (order_by-numbered 0 (of_conversation i db.messages) (h i)))),
        λ j other. rw run.1 (
            ap (order_by earlier_seq)
              (of_conversation-other j db.messages m (ground (arith, other, ==_iff i j)))),
      )

  insert_message-IsNumbered :
      (m : Message) (db db' : Db P) (r : Message)
      → IsNumbered db.messages
      → m.seq ≡ length (of_conversation m.conversation_id db.messages)
      → insert_message m db ≡ ok (r, db')
      → IsNumbered db'.messages
  unfolding insert_message
  insert_message-IsNumbered m db db' r h e ran = ground (arith, append-IsNumbered db.messages m h e)

  inserted-IsNumbered :
      (mid i : ℕ) (role : MessageRole) (content : Text) (c : Conn P)
      → IsNumbered c.db.messages
      → IsNumbered ((select_next_seq i >>= insert_at mid i role content) c).1.db.messages
  inserted-IsNumbered mid i role content c h =
      let read = statement-reads (λ db. next_seq (of_conversation i db.messages)) c in
      let begun = subst (λ d. IsNumbered d.messages) (sym read.0) h in
      >>=-cases (select_next_seq i) (insert_at mid i role content) c
        (λ x. IsNumbered x.1.db.messages) (λ _ _. begun)
        (λ n e.
          statement-keeps (λ d. IsNumbered d.messages) (insert_message _) (select_next_seq i c).1
            begun
            (λ r db ran.
              insert_message-IsNumbered _ (select_next_seq i c).1.db db r begun
                (read.1 n e
                  ∙ next_seq-length (of_conversation i c.db.messages) (h i)
                  ∙ ap (λ d. length (of_conversation i d.messages)) (sym read.0))
                ran))

  touched-IsNumbered :
      (i : ℕ) (m : Message) (c : Conn P)
      → IsNumbered c.db.messages
      → IsNumbered ((touch i >> pure m) c).1.db.messages
  touched-IsNumbered i m c h =
      let kept =
        statement-keeps (λ d. IsNumbered d.messages) _ c h
          (λ a db e. subst IsNumbered (ground (arith, e)) h) in
      >>=-cases (touch i) (λ _. pure m) c (λ x. IsNumbered x.1.db.messages) (λ _ _. kept)
        (λ _ _. kept)

  -- An append leaves every conversation numbered from 0 without a gap, whichever of its statements
  -- fail.
  pub append_message-IsNumbered :
      (mid i : ℕ) (role : MessageRole) (content : Text) (c : Conn P)
      → IsNumbered c.db.messages
      → IsNumbered (append_message mid i role content c).1.db.messages
  unfolding append_message get
  append_message-IsNumbered mid i role content c h =
      let begun =
        subst (λ d. IsNumbered d.messages)
          (sym (statement-reads (λ db. find_conversation i db.conversations) c).0) h in
      >>=-cases (get i) _ c (λ x. IsNumbered x.1.db.messages) (λ _ _. begun)
        (λ _ _.
          >>=-cases (select_next_seq i >>= insert_at mid i role content) (λ m. touch i >> pure m)
            (get i c).1 (λ x. IsNumbered x.1.db.messages)
            (λ _ _. inserted-IsNumbered mid i role content (get i c).1 begun)
            (λ m _.
              touched-IsNumbered i m _ (inserted-IsNumbered mid i role content (get i c).1 begun)))
