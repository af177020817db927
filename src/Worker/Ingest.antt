-- ===== src/Worker/Ingest.antt =====
-- The body of `_handle`'s transaction: what it has done when it ends without an exception.
use llm_inference_logger.Prelude.{
  ℕ, Text, true, some, is_some, arith, ◌≡◌, refl, take, Option-cases, inl, inr, List, subst, sym,
}
use llm_inference_logger.Prelude.Outcome.{is_ok, Result, ok, err, >>=-returns, >>=-cases}
use llm_inference_logger.Domain.Enums.{processed, failed}
use llm_inference_logger.Domain.Event.{InferenceEvent}
use llm_inference_logger.Events.Wire.{Wire, event_type_of}
use llm_inference_logger.Events.Stream
use llm_inference_logger.Events.Stream.{EventStream}
use llm_inference_logger.Db.Tables.{Db, RawEvent, find_raw, find_log, InferenceLog}
use llm_inference_logger.Db.RawEvents.{as_processed, as_failed}
use llm_inference_logger.Db.RawEvents.Laws.{
  find-mark_processed, mark_processed-others, find-mark_failed, id-find_raw, find-record_raw,
  mark_failed-others, record_raw-others,
}
use llm_inference_logger.Db.InferenceLogs.{upsert}
use llm_inference_logger.Db.InferenceLogs.Laws.{find-upsert, upsert-others}
use llm_inference_logger.Worker.{World, store, sql, Conn}
use llm_inference_logger.Worker.{ingest}
use llm_inference_logger.Events.Wire.{model_validate}
use llm_inference_logger.Db.RawEvents.{record_raw}

module _ (W : Wire) (S : EventStream W.Payload) where
  -- The row of the landing zone has been dealt with, by how validation ended: the log row is there,
  -- or the reason of the failure is.
  abbrev pub Settled : ℕ → Result Text InferenceEvent → Db W.Payload → Type 0
  Settled i (ok e) db =
      (is_some (find_log e.id db.inference_logs) ≡ true)
      × (r : RawEvent W.Payload) × (find_raw i db.raw_events ≡ some r)
      × (r.processing_status ≡ processed)
  Settled i (err why) db =
      (r : RawEvent W.Payload) × (find_raw i db.raw_events ≡ some r)
      × (r.processing_status ≡ failed)
      × (r.processing_error ≡ some (take 4000 why))

  module _ (i : ℕ) (p : W.Payload) where
    store-Settled :
        (v : Result Text InferenceEvent) (w : World W S) (r : RawEvent W.Payload)
        → find_raw i w.conn.db.raw_events ≡ some r
        → is_ok (store W S i p v w).0 ≡ true
        → Settled i v (store W S i p v w).1.conn.db
    unfolding store
    store-Settled (ok e) w r landed h =
        let c₁ = (upsert e w.conn).1 in
        let found = id-find_raw i w.conn.db.raw_events r landed in
        (
          ground (arith, find-upsert e w.conn, mark_processed-others i c₁),
          as_processed c₁.now r,
          ground (arith, upsert-others e w.conn, find-mark_processed i c₁ r, found),
          refl,
        )
    store-Settled (err why) w r landed h =
        let found = id-find_raw i w.conn.db.raw_events r landed in
        (
          as_failed w.conn.now why r,
          ground (arith, find-mark_failed i w.conn why r, found),
          refl,
          refl,
        )

    -- A body that ends without an exception has settled the row of its id.
    pub ingest-Settled :
        (w : World W S)
        → is_ok (ingest W S i p w).0 ≡ true
        → Settled i (model_validate W p) (ingest W S i p w).1.conn.db
    unfolding ingest
    ingest-Settled w h =
        >>=-returns (sql W S (record_raw i (event_type_of W p) p))
          (λ _. store W S i p (model_validate W p)) w
          (λ x. Settled i (model_validate W p) x.1.conn.db) h
          λ b landed k.
            elim (Option-cases
              (find_raw i (record_raw i (event_type_of W p) p w.conn).1.db.raw_events)) [
                | inl absent ↦
                    absurd (ground (arith, find-record_raw i (event_type_of W p) p w.conn))
                | inr (row, found) ↦ store-Settled (model_validate W p) _ row found k
              ]

    -- The body acknowledges nothing.
    pub acked-ingest :
        Stream.IsLawful S → (w : World W S) → S.acked (ingest W S i p w).1.stream ≡ S.acked w.stream
    unfolding ingest
    acked-ingest L w =
        >>=-cases (sql W S (record_raw i (event_type_of W p) p))
          (λ _. store W S i p (model_validate W p)) w (λ x. S.acked x.1.stream ≡ S.acked w.stream)
          (λ _ _. refl) (λ _ _. acked-store (model_validate W p) _)
      where
        acked-store :
            (v : Result Text InferenceEvent) (x : World W S)
            → S.acked (store W S i p v x).1.stream ≡ S.acked x.stream
        acked-store (ok e) x = unfold store in ground arith
        acked-store (err why) x =
            unfold store in
            ground (arith, L.acked-dead_letter p "schema_validation_failed" x.stream)

    -- What every upsert keeps of the log table, the body keeps.
    pub ingest-keeps {κ} :
        (P : List InferenceLog → Type κ)
        → ((e : InferenceEvent) (c : Conn W.Payload)
            → P c.db.inference_logs
            → P (upsert e c).1.db.inference_logs)
        → (w : World W S) → P w.conn.db.inference_logs
        → P (ingest W S i p w).1.conn.db.inference_logs
    unfolding ingest
    ingest-keeps P step w h =
        let kept = subst P (sym (record_raw-others i (event_type_of W p) p w.conn).0) h in
        >>=-cases (sql W S (record_raw i (event_type_of W p) p))
          (λ _. store W S i p (model_validate W p)) w (λ x. P x.1.conn.db.inference_logs)
          (λ _ _. kept) (λ _ _. store-keeps (model_validate W p) _ kept)
      where
        store-keeps :
            (v : Result Text InferenceEvent) (x : World W S)
            → P x.conn.db.inference_logs
            → P (store W S i p v x).1.conn.db.inference_logs
        store-keeps (ok e) x k = subst P (sym (same_ok e x)) (step e x.conn k)
          where
            same_ok :
                (e : InferenceEvent) (x : World W S)
                → (store W S i p (ok e) x).1.conn.db.inference_logs
                  ≡ (upsert e x.conn).1.db.inference_logs
            same_ok e x =
                unfold store in ground (arith, mark_processed-others i (upsert e x.conn).1)
        store-keeps (err why) x k = subst P (sym same_err) k
          where
            same_err :
                (store W S i p (err why) x).1.conn.db.inference_logs ≡ x.conn.db.inference_logs
            same_err = unfold store in ground (arith, mark_failed-others i x.conn why)
