-- ===== src/Worker/Poison.antt =====
-- An event that names a conversation which is gone, and the batch behind it.
use llm_inference_logger.Prelude.{ℕ, ◌≡◌, refl, false, none, some, List, ◌∷◌, arith}
use llm_inference_logger.Events.Stream
use llm_inference_logger.Events.Wire.{Wire, model_validate, extract_id, event_type_of}
use llm_inference_logger.Domain.Event.{InferenceEvent}
use llm_inference_logger.Db.InferenceLogs.{upsert}
use llm_inference_logger.Events.Stream.{EventStream, DeliveredEvent}
use llm_inference_logger.Db.Session.{Conn}
use llm_inference_logger.Db.Tables.{Db, find_conversation, find_log}
use llm_inference_logger.Worker.{
  ingest, handle_all, handle, World, ok, handle_id, sql, record_raw, store,
}
use llm_inference_logger.Prelude.Outcome.{is_ok, >>=-cases}
use llm_inference_logger.Worker.Durable.{begun, in_session-ok, in_session-atomic, in_session-stream}
use llm_inference_logger.Db.RawEvents.Laws.{record_raw-others}
use llm_inference_logger.Worker.Ingest.{acked-ingest}

-- The foreign key of the event's row would dangle.
pub record Dangles {P : Type 0} (e : InferenceEvent) (db : Db P) : Type 0 where
  pub conversation : ℕ
  pub named : e.conversation_id ≡ some conversation
  pub gone : find_conversation conversation db.conversations ≡ none
  pub new : find_log e.id db.inference_logs ≡ none

upsert-dangling :
    {P : Type 0} (e : InferenceEvent) (c : Conn P) (k : ℕ)
    → e.conversation_id ≡ some k
    → find_conversation k c.db.conversations ≡ none
    → find_log e.id c.db.inference_logs ≡ none
    → is_ok (upsert e c).0 ≡ false
unfolding upsert
upsert-dangling e c k named gone new = ground arith

module _ (W : Wire) (S : EventStream W.Payload) where
  ingest-dangling :
      (i : ℕ) (p : W.Payload) (e : InferenceEvent) (w : World W S)
      → model_validate W p ≡ ok e
      → Dangles e w.conn.db
      → is_ok (ingest W S i p w).0 ≡ false
  unfolding ingest
  ingest-dangling i p e w accepted d =
      >>=-cases (sql W S (record_raw i (event_type_of W p) p))
        (λ _. store W S i p (model_validate W p)) w (λ x. is_ok x.0 ≡ false) (λ _ _. refl)
        (λ _ _. rw accepted (
          unfold store in
          ground (
            arith,
            record_raw-others i (event_type_of W p) p w.conn,
            upsert-dangling e (record_raw i (event_type_of W p) p w.conn).1 d.conversation d.named,
            d.gone,
            d.new,
          )))

  module _ (L : Stream.IsLawful S) where
    -- A delivered event that is valid, names a conversation which has been deleted and is not in the
    -- log yet raises, under every schedule of faults. It leaves no trace in the tables, not even its
    -- raw row, nor do the deliveries behind it in the batch, and none of them is acknowledged. The
    -- stream meets its contract.
    pub dangling-stops-batch :
        (now : ℕ) (item : DeliveredEvent W.Payload) (rest : List (DeliveredEvent W.Payload))
        (w : World W S) (i : ℕ) (e : InferenceEvent)
        → extract_id W item.payload ≡ some i
        → model_validate W item.payload ≡ ok e
        → Dangles e w.conn.db
        → let (r, w') = handle_all W S now (item ∷ rest) w in
          (is_ok r ≡ false) × (w'.conn.db ≡ w.conn.db) × (S.acked w'.stream ≡ S.acked w.stream)
    unfolding handle_all handle
    dangling-stops-batch now item rest w i e known accepted d =
        let body = ingest W S i item.payload in
        let raises = ingest-dangling i item.payload e (begun W S now w) accepted d in
        rw (known, handle_id)
          (unfold handle_id in
            ground (
              arith,
              in_session-ok W S now body w,
              in_session-atomic W S now body w,
              in_session-stream W S now body w,
              acked-ingest W S i item.payload L (begun W S now w),
              raises,
            ))
