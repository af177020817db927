-- ===== src/Db/InferenceLogs/Laws.antt =====
-- The upsert: what it inserts, and that a row once written is never changed.
use llm_inference_logger.Prelude.{ℕ, ◌≡◌, true, none, some, List, [], ◌∷◌, arith, is_some, ==_refl}
use llm_inference_logger.Domain.Event.{InferenceEvent}
use llm_inference_logger.Db.Tables.{InferenceLog, find_log}
use llm_inference_logger.Db.Session.{Conn}
use llm_inference_logger.Db.InferenceLogs.{upsert, List, ◌∷◌, none}
use llm_inference_logger.Prelude.Outcome.{is_ok}

module _ {P : Type 0} (e : InferenceEvent) (c : Conn P) where
  pub find-upsert :
      is_ok (upsert e c).0 ≡ true → is_some (find_log e.id (upsert e c).1.db.inference_logs) ≡ true
  unfolding upsert find_log
  find-upsert h = ground (arith, ==_refl e.id)

  pub upsert-others :
      ((upsert e c).1.db.raw_events ≡ c.db.raw_events)
      × ((upsert e c).1.db.conversations ≡ c.db.conversations)
      × ((upsert e c).1.db.messages ≡ c.db.messages)
      × ((upsert e c).1.now ≡ c.now)
  unfolding upsert
  upsert-others = ground arith

  -- A row that is there stays as it is.
  pub find-upsert_keeps :
      (j : ℕ) (l : InferenceLog)
      → find_log j c.db.inference_logs ≡ some l
      → find_log j (upsert e c).1.db.inference_logs ≡ some l
  unfolding upsert find_log
  find-upsert_keeps j l h = ground arith

-- The primary key: no two rows have the same id.
abbrev pub DistinctIds : List InferenceLog → Type 0
DistinctIds [] = Unit
DistinctIds (l ∷ ls) = (find_log l.id ls ≡ none) × DistinctIds ls

module _ {P : Type 0} (e : InferenceEvent) (c : Conn P) where
  pub upsert-DistinctIds :
      DistinctIds c.db.inference_logs → DistinctIds (upsert e c).1.db.inference_logs
  unfolding upsert
  upsert-DistinctIds h = ground arith

  -- The upsert of an event whose row is there changes no log row.
  pub upsert_again :
      is_some (find_log e.id c.db.inference_logs) ≡ true
      → (upsert e c).1.db.inference_logs ≡ c.db.inference_logs
  unfolding upsert
  upsert_again h = ground arith
