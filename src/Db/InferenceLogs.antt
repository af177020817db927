-- ===== src/Db/InferenceLogs.antt =====
-- backend/app/db/repositories/inference_logs.py: the observability record.
pub mod Laws
pub mod Order
use llm_inference_logger.Prelude.{
  ℕ, String, Bool, true, false, not, ◌&&◌, ◌||◌, Option, none, some, List, ◌∷◌, ltb, leb, ◌==◌,
  str_eq, take, keep, if◌then◌else◌, is_some,
}
use llm_inference_logger.Prelude.Order.{order_by}
use llm_inference_logger.Prelude.Outcome.{Result, ok, err}
use llm_inference_logger.Core.Errors.{Exn}
use llm_inference_logger.Domain.Enums.{InferenceStatus, same_status}
use llm_inference_logger.Domain.Event.{InferenceEvent}
use llm_inference_logger.Db.Tables.{
  Db, InferenceLog, find_log, conversation_fk, message_fk, log_types_ok, log_checks_ok, to_row,
}
use llm_inference_logger.Db.Session.{Sql, statement, data_error, integrity_error}

module _ {P : Type 0} where
  -- The two foreign keys of a row hold.
  abbrev pub fks_ok : InferenceLog → Db P → Bool
  fks_ok l db =
      conversation_fk l.conversation_id db.conversations && message_fk l.message_id db.messages

  -- INSERT … ON CONFLICT (id) DO NOTHING; returns whether a row was inserted. Column types and
  -- CHECK constraints are tested first, foreign keys only for a row that goes in.
  unfoldable pub upsert_rows : ℕ → InferenceEvent → Db P → Result Exn (Bool × Db P)
  unfolding to_row
  upsert_rows now e db =
      let l = to_row now e in
      if not (log_types_ok l)
      then err data_error
      else if not (log_checks_ok l)
      then err integrity_error
      else if is_some (find_log l.id db.inference_logs)
      then ok (false, db)
      else if fks_ok l db
      then ok (true, record db { inference_logs = l ∷ db.inference_logs })
      else err integrity_error

  -- `InferenceLogRepository.upsert`
  unfoldable pub upsert : InferenceEvent → Sql P Bool
  unfolding upsert_rows statement
  upsert e c = statement (upsert_rows c.now e) c

-- `(started_at, id) < (t, i)`, SQL's row-value comparison.
abbrev pub key_lt : ℕ → ℕ → ℕ → ℕ → Bool
key_lt t i u j = ltb t u || (t == u && ltb i j)

-- ORDER BY started_at DESC, id DESC
abbrev pub newer : InferenceLog → InferenceLog → Bool
newer a b = key_lt b.started_at b.id a.started_at a.id

-- The filters of `list_recent`; `none` leaves a filter out.
pub record LogFilter : Type 0 where
  pub provider : Option String
  pub model : Option String
  pub status : Option InferenceStatus
  pub conversation_id : Option ℕ
  pub since : Option ℕ

abbrev pub eq_string : Option String → String → Bool
eq_string none s = true
eq_string (some t) s = str_eq s t

abbrev pub eq_status : Option InferenceStatus → InferenceStatus → Bool
eq_status none s = true
eq_status (some t) s = same_status s t

-- A null column equals nothing.
abbrev pub eq_conversation : Option ℕ → Option ℕ → Bool
eq_conversation none c = true
eq_conversation (some i) none = false
eq_conversation (some i) (some j) = j == i

abbrev pub at_least : Option ℕ → ℕ → Bool
at_least none t = true
at_least (some s) t = leb s t

abbrev pub matches : LogFilter → InferenceLog → Bool
matches f l =
    eq_string f.provider l.provider
    && eq_string f.model l.model
    && eq_status f.status l.status
    && eq_conversation f.conversation_id l.conversation_id
    && at_least f.since l.started_at

-- The keyset cursor: `before` and `before_id`. `before_id` alone is ignored.
abbrev pub before_cursor : Option ℕ → Option ℕ → InferenceLog → Bool
before_cursor none before_id l = true
before_cursor (some t) none l = ltb l.started_at t
before_cursor (some t) (some i) l = key_lt l.started_at l.id t i

-- `list_recent`
unfoldable pub list_recent :
    ℕ → LogFilter → Option ℕ → Option ℕ → List InferenceLog → List InferenceLog
list_recent limit f before before_id logs =
    take limit (order_by newer (keep (λ l. matches f l && before_cursor before before_id l) logs))

-- ORDER BY started_at ASC
abbrev pub earlier : InferenceLog → InferenceLog → Bool
earlier a b = ltb a.started_at b.started_at

-- `list_for_conversation`
unfoldable pub list_for_conversation : ℕ → List InferenceLog → List InferenceLog
list_for_conversation i logs =
    order_by earlier (keep (λ l. eq_conversation (some i) l.conversation_id) logs)
