-- ===== src/Db/RawEvents/Laws.antt =====
-- What the landing zone keeps: other tables, rows once landed, and the payload of every row.
use llm_inference_logger.Prelude.{
  ℕ, true, none, some, List, [], ◌∷◌, ◌==◌, ==_refl, is_some, arith, ◌≡◌, refl, if◌then◌else◌,
}
use llm_inference_logger.Prelude.Outcome.{is_ok}
use llm_inference_logger.Db.Tables.{RawEvent, find_raw}
use llm_inference_logger.Db.Session.{Conn}
use llm_inference_logger.Db.RawEvents.{record_raw, set_row, record_raw, set_row}
use llm_inference_logger.Db.RawEvents.{mark_processed}
use llm_inference_logger.Db.RawEvents.{mark_failed}
use llm_inference_logger.Db.RawEvents.{as_processed}
use llm_inference_logger.Db.RawEvents.{Text}
use llm_inference_logger.Db.RawEvents.{as_failed}

module _ {P : Type 0} where
  find_raw-set_row :
      (f : RawEvent P → RawEvent P) (i j : ℕ) (rs : List (RawEvent P))
      → ((r : RawEvent P) → (f r).id ≡ r.id)
      → find_raw j (set_row f i rs)
        ≡ (elim (find_raw j rs) [ none ↦ none | some r ↦ some (if r.id == i then f r else r) ])
  unfolding find_raw
  find_raw-set_row f i j [] h = refl
  find_raw-set_row f i j (r ∷ rs) h = ground (arith, h r, find_raw-set_row f i j rs h)

  module _ (i : ℕ) (t : Text) (p : P) (c : Conn P) where
    pub find-record_raw :
        is_ok (record_raw i t p c).0 ≡ true
        → is_some (find_raw i (record_raw i t p c).1.db.raw_events) ≡ true
    unfolding record_raw find_raw
    find-record_raw h = ground (arith, ==_refl i)

    pub record_raw-others :
        ((record_raw i t p c).1.db.inference_logs ≡ c.db.inference_logs)
        × ((record_raw i t p c).1.db.conversations ≡ c.db.conversations)
        × ((record_raw i t p c).1.db.messages ≡ c.db.messages)
        × ((record_raw i t p c).1.now ≡ c.now)
    unfolding record_raw
    record_raw-others = ground arith

  -- What a row looks like after its update has run, if the update was served.
  module _ (i : ℕ) (c : Conn P) where
    pub mark_processed-others :
        ((mark_processed i c).1.db.inference_logs ≡ c.db.inference_logs)
        × ((mark_processed i c).1.db.conversations ≡ c.db.conversations)
        × ((mark_processed i c).1.db.messages ≡ c.db.messages)
    unfolding mark_processed
    mark_processed-others = ground arith

    pub find-mark_processed :
        (r : RawEvent P)
        → find_raw i c.db.raw_events ≡ some r
        → r.id ≡ i
        → is_ok (mark_processed i c).0 ≡ true
        → find_raw i (mark_processed i c).1.db.raw_events ≡ some (as_processed c.now r)
    unfolding mark_processed
    find-mark_processed r h e served =
        ground (arith, find_raw-set_row (as_processed c.now) i i c.db.raw_events (λ r. refl))

    pub mark_failed-others :
        (why : Text)
        → ((mark_failed i why c).1.db.inference_logs ≡ c.db.inference_logs)
          × ((mark_failed i why c).1.db.conversations ≡ c.db.conversations)
          × ((mark_failed i why c).1.db.messages ≡ c.db.messages)
    unfolding mark_failed
    mark_failed-others why = ground arith

    pub find-mark_failed :
        (why : Text) (r : RawEvent P)
        → find_raw i c.db.raw_events ≡ some r
        → r.id ≡ i
        → is_ok (mark_failed i why c).0 ≡ true
        → find_raw i (mark_failed i why c).1.db.raw_events ≡ some (as_failed c.now why r)
    unfolding mark_failed
    find-mark_failed why r h e served =
        ground (arith, find_raw-set_row (as_failed c.now why) i i c.db.raw_events (λ r. refl))

  -- The row that a primary key finds has that key.
  pub id-find_raw :
      (i : ℕ) (rs : List (RawEvent P)) (r : RawEvent P) → find_raw i rs ≡ some r → r.id ≡ i
  unfolding find_raw
  id-find_raw i [] r h = cc
  id-find_raw i (q ∷ rs) r h = ground (arith, id-find_raw i rs r)
