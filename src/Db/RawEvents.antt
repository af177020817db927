-- ===== src/Db/RawEvents.antt =====
-- backend/app/db/repositories/raw_events.py: the landing zone.
pub mod Laws
use llm_inference_logger.Prelude.{
  ℕ, String, Text, Bool, true, false, none, some, List, [], ◌∷◌, len, ltb, ◌==◌, take, keep,
  if◌then◌else◌, is_some, length,
}
use llm_inference_logger.Prelude.Order.{order_by}
use llm_inference_logger.Prelude.Outcome.{Result, ok, err}
use llm_inference_logger.Core.Errors.{Exn}
use llm_inference_logger.Domain.Enums.{pending, processed, failed, is_failed}
use llm_inference_logger.Db.Tables.{Db, RawEvent, find_raw}
use llm_inference_logger.Db.Session.{Sql, statement, data_error}

module _ {P : Type 0} where
  -- INSERT … ON CONFLICT (id) DO NOTHING; returns whether a row was inserted. `event_type` is a
  -- VARCHAR(64).
  unfoldable pub record_rows : ℕ → ℕ → Text → P → Db P → Result Exn (Bool × Db P)
  record_rows now i event_type payload db =
      if ltb 64 (length event_type)
      then err data_error
      else if is_some (find_raw i db.raw_events)
      then ok (false, db)
      else ok (
        true,
        record db {
          raw_events =
              record {
                id = i;
                event_type = event_type;
                payload = payload;
                received_at = now;
                processed_at = none;
                processing_status = pending;
                processing_error = none;
              }
              ∷ db.raw_events;
        },
      )

  -- `RawEventRepository.record`
  unfoldable pub record_raw : ℕ → Text → P → Sql P Bool
  unfolding record_rows statement
  record_raw i event_type payload c = statement (record_rows c.now i event_type payload) c

  abbrev pub set_row : (RawEvent P → RawEvent P) → ℕ → List (RawEvent P) → List (RawEvent P)
  set_row f i [] = []
  set_row f i (r ∷ rs) = (if r.id == i then f r else r) ∷ set_row f i rs

  -- UPDATE … WHERE id = i
  unfoldable pub update_rows : (RawEvent P → RawEvent P) → ℕ → Db P → Result Exn (Unit {0} × Db P)
  update_rows f i db = ok (tt, record db { raw_events = set_row f i db.raw_events })

  abbrev pub as_processed : ℕ → RawEvent P → RawEvent P
  as_processed now r = record r {
    processing_status = processed;
    processed_at = some now;
    processing_error = none;
  }

  abbrev pub as_failed : ℕ → Text → RawEvent P → RawEvent P
  as_failed now why r = record r {
    processing_status = failed;
    processed_at = some now;
    processing_error = some (take 4000 why);
  }

  unfoldable pub mark_processed : ℕ → Sql P (Unit {0})
  unfolding update_rows statement
  mark_processed i c = statement (update_rows (as_processed c.now) i) c

  unfoldable pub mark_failed : ℕ → Text → Sql P (Unit {0})
  unfolding update_rows statement
  mark_failed i why c = statement (update_rows (as_failed c.now why) i) c

  -- ORDER BY received_at DESC
  abbrev pub received_later : RawEvent P → RawEvent P → Bool
  received_later a b = ltb b.received_at a.received_at

  -- `list_failed`
  unfoldable pub list_failed : ℕ → Db P → List (RawEvent P)
  list_failed limit db =
      take limit (order_by received_later (keep (λ r. is_failed r.processing_status) db.raw_events))
