-- ===== src/Db/Conversations.antt =====
-- backend/app/db/repositories/conversations.py: the statements over a conversation and its
-- messages. Each is one statement or a few, and nothing here commits.
pub mod Seq
pub mod Known
pub mod Served
mod Tests
use llm_inference_logger.Prelude.{
  ℕ, suc, max, Bool, false, not, ◌&&◌, ◌||◌, Option, none, some, List, [], ◌∷◌, ◌++◌, map, reverse,
  Text, codes, ltb, leb, ◌==◌, if◌then◌else◌, is_some, length, take, drop, keep, or_else,
}
use llm_inference_logger.Prelude.Outcome.{Result, ok, err, pure, raise, ◌>>=◌, ◌>>◌}
use llm_inference_logger.Prelude.Order.{order_by}
use llm_inference_logger.Core.Errors.{Exn, app, not_found}
use llm_inference_logger.Domain.Enums.{ConversationStatus, MessageRole}
use llm_inference_logger.Db.Tables.{
  Db, Conversation, Message, InferenceLog, find_conversation, find_message,
}
use llm_inference_logger.Db.Session.{Sql, statement, integrity_error}

-- `_TITLE_MAX_CHARS`
abbrev pub title_max_chars : ℕ
title_max_chars = 60

-- `str.isspace()` of a character: the white space of Unicode as Python has it.
abbrev pub is_space : ℕ → Bool
is_space c =
    (leb 9 c && leb c 13)
    || (leb 28 c && leb c 32)
    || c == 133
    || c == 160
    || c == 5760
    || (leb 8192 c && leb c 8202)
    || c == 8232
    || c == 8233
    || c == 8239
    || c == 8287
    || c == 12288

-- `str.lstrip()` and `str.strip()`
abbrev pub lstrip : Text → Text
lstrip [] = []
lstrip (c ∷ cs) = let rest = lstrip cs in if is_space c then rest else c ∷ cs

abbrev pub strip : Text → Text
strip t = reverse (lstrip (reverse (lstrip t)))

-- The title that `ensure_title` derives.
unfoldable pub title_of : Text → Text
title_of source =
    elim (take title_max_chars (map (λ c. if c == 10 then 32 else c) (strip source))) [
      | [] ↦ codes "New conversation"
      | c ∷ cs ↦ c ∷ cs
    ]

-- The rows of one conversation.
abbrev pub of_conversation : ℕ → List Message → List Message
of_conversation i = keep (λ m. m.conversation_id == i)

-- `ORDER BY seq`
abbrev pub earlier_seq : Message → Message → Bool
earlier_seq a b = ltb a.seq b.seq

-- `coalesce(max(seq), -1) + 1`
unfoldable pub next_seq : List Message → ℕ
next_seq [] = 0
next_seq (m ∷ ms) = max (suc m.seq) (next_seq ms)

-- Whether a position is taken.
abbrev pub taken : ℕ → List Message → Bool
taken n [] = false
taken n (m ∷ ms) = m.seq == n || taken n ms

-- The row with an id, changed.
abbrev pub change_conversation :
    (Conversation → Conversation) → ℕ → List Conversation → List Conversation
change_conversation f i = map (λ c. if c.id == i then f c else c)

-- `Conversation.updated_at.desc(), Conversation.id.desc()`
abbrev pub more_recent : Conversation → Conversation → Bool
more_recent a b = ltb b.updated_at a.updated_at || (b.updated_at == a.updated_at && ltb b.id a.id)

-- `ON DELETE SET NULL`
abbrev pub drop_ref : (ℕ → Bool) → Option ℕ → Option ℕ
drop_ref p none = none
drop_ref p (some k) = if p k then none else some k

-- What the foreign keys do when a conversation goes: its messages go, and log rows that named it
-- or one of them name nothing.
abbrev pub forget : ℕ → List Message → InferenceLog → InferenceLog
forget i gone l = record l {
  conversation_id = drop_ref (λ k. k == i) l.conversation_id;
  message_id = drop_ref (λ k. is_some (find_message k gone)) l.message_id;
}

module _ {P : Type 0} where
  abbrev set_conversations : List Conversation → Db P → Db P
  set_conversations cs db = record db { conversations = cs }

  -- `create`. The database draws the id.
  unfoldable pub create : ℕ → Option Text → Sql P Conversation
  create i title conn =
      let c : Conversation = record {
        id = i;
        title = title;
        status = ConversationStatus.active;
        created_at = conn.now;
        updated_at = conn.now;
      } in
      statement
        (λ db.
          if is_some (find_conversation i db.conversations)
          then err integrity_error
          else ok (c, set_conversations (db.conversations ++ c ∷ []) db))
        conn

  unfoldable pub get : ℕ → Sql P (Option Conversation)
  get i = statement (λ db. ok (find_conversation i db.conversations, db))

  abbrev pub or_not_found : ℕ → Option Conversation → Sql P Conversation
  or_not_found i none = raise (app (not_found "Conversation not found" i))
  or_not_found i (some c) = pure c

  unfoldable pub require : ℕ → Sql P Conversation
  require i = get i >>= or_not_found i

  unfoldable pub list_recent : ℕ → ℕ → Sql P (List Conversation)
  list_recent limit offset =
      statement (λ db. ok (take limit (drop offset (order_by more_recent db.conversations)), db))

  unfoldable pub count_conversations : Sql P ℕ
  count_conversations = statement (λ db. ok (length db.conversations, db))

  -- `select(Conversation.id).with_for_update()`: the lock keeps other appends to the conversation
  -- out until the transaction ends.
  abbrev pub lock : ℕ → Sql P (Option Conversation)
  lock i = get i

  abbrev pub select_next_seq : ℕ → Sql P ℕ
  select_next_seq i = statement (λ db. ok (next_seq (of_conversation i db.messages), db))

  -- A message row, and the constraints on it: the foreign key, the primary key and the unique
  -- position. The upper end of the column's integer type is left aside. Whether Postgres takes the
  -- text is the schedule's to say: one with U+0000 or a surrogate in it is a statement that is refused.
  unfoldable pub insert_message : Message → Db P → Result Exn (Message × Db P)
  insert_message m db =
      if is_some (find_conversation m.conversation_id db.conversations)
        && not (is_some (find_message m.id db.messages))
        && not (taken m.seq (of_conversation m.conversation_id db.messages))
      then ok (m, record db { messages = db.messages ++ m ∷ [] })
      else err integrity_error

  abbrev pub touch : ℕ → Sql P (Unit {0})
  touch i conn =
      statement
        (λ db. ok (
          tt,
          set_conversations
              (change_conversation (λ c. record c { updated_at = conn.now }) i db.conversations) db,
        ))
        conn

  abbrev pub insert_at : ℕ → ℕ → MessageRole → Text → ℕ → Sql P Message
  insert_at mid i role content n conn =
      statement
        (insert_message (record {
          id = mid;
          conversation_id = i;
          role = role;
          content = content;
          seq = n;
          created_at = conn.now;
        }))
        conn

  -- `append_message`. The id is drawn by the caller's side of the database.
  unfoldable pub append_message : ℕ → ℕ → MessageRole → Text → Sql P Message
  append_message mid i role content =
      lock i >>= λ _. select_next_seq i >>= insert_at mid i role content >>= λ m. touch i >> pure m

  -- The messages of a conversation, `ORDER BY seq`.
  abbrev pub in_order : ℕ → Db P → List Message
  in_order i db = order_by earlier_seq (of_conversation i db.messages)

  unfoldable pub messages : ℕ → Sql P (List Message)
  messages i = statement (λ db. ok (in_order i db, db))

  unfoldable pub set_status : ℕ → ConversationStatus → Sql P (Unit {0})
  set_status i status conn =
      statement
        (λ db. ok (
          tt,
          set_conversations
              (change_conversation (λ c. record c { status = status; updated_at = conn.now }) i
                db.conversations)
              db,
        ))
        conn

  -- `ensure_title`, whose WHERE asks that there is no title.
  unfoldable pub ensure_title : ℕ → Text → Sql P (Unit {0})
  ensure_title i source = statement (λ db. ok (
    tt,
    set_conversations
        (change_conversation (λ c. record c { title = or_else c.title (some (title_of source)) }) i
          db.conversations)
        db,
  ))

  unfoldable pub delete_rows : ℕ → Db P → Db P
  delete_rows i db = record db {
    conversations = keep (λ c. not (c.id == i)) db.conversations;
    messages = keep (λ m. not (m.conversation_id == i)) db.messages;
    inference_logs = map (forget i (of_conversation i db.messages)) db.inference_logs;
  }

  unfoldable pub delete : ℕ → Sql P (Unit {0})
  delete i = require i >>= λ _. statement (λ db. ok (tt, delete_rows i db))
