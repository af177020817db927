-- ===== src/Worker/Once.antt =====
-- At-least-once delivery with one row for each id: a log row is written once and never again.
use llm_inference_logger.Prelude.{
  ℕ, ◌≡◌, sym, inl, inr, Option, none, some, List, [], ◌∷◌, arith, length, subst,
}
use llm_inference_logger.Events.Wire.{Wire, extract_id}
use llm_inference_logger.Events.Stream.{EventStream, DeliveredEvent}
use llm_inference_logger.Worker.{
  World, ingest, handle_id, in_session, ack, handle_all, run_rounds, handle, process_batch, poll,
  tally, new_outcome, InferenceEvent, Conn, upsert,
}
use llm_inference_logger.Db.Tables.{InferenceLog, find_log, Db}
use llm_inference_logger.Worker.Durable.{in_session-atomic, begun}
use llm_inference_logger.Prelude.Outcome.{>>=-cases, ◌>>◌}
use llm_inference_logger.Db.InferenceLogs.Laws.{DistinctIds, upsert-DistinctIds, find-upsert_keeps}
use llm_inference_logger.Worker.Ingest.{ingest-keeps}

module _ (W : Wire) (S : EventStream W.Payload) where
  -- A predicate of the log table that the body of every transaction keeps.
  abbrev logs_of : World W S → List InferenceLog
  logs_of w = w.conn.db.inference_logs

  no_id-conn :
      (now : ℕ) (item : DeliveredEvent W.Payload) (w : World W S)
      → (handle_id W S now item none w).1.conn ≡ w.conn
  unfolding handle_id
  no_id-conn now item w = ground arith

  module _ {κ} (P : List InferenceLog → Type κ)
      (step : (e : InferenceEvent) (c : Conn W.Payload)
        → P c.db.inference_logs
        → P (upsert e c).1.db.inference_logs) where
    in_session-keeps :
        (now i : ℕ) (p : W.Payload) (w : World W S)
        → P (logs_of w)
        → P (logs_of (in_session W S now (ingest W S i p) w).1)
    in_session-keeps now i p w h = elim (in_session-atomic W S now (ingest W S i p) w) [
      | inl same ↦ subst (λ (d : Db W.Payload). P d.inference_logs) (sym same) h
      | inr (_, whole) ↦
          subst (λ (d : Db W.Payload). P d.inference_logs) (sym whole)
            (ingest-keeps W S i p P step (begun W S now w) h)
    ]

    handle_id-keeps :
        (now : ℕ) (item : DeliveredEvent W.Payload) (w : World W S) (o : Option ℕ)
        → P (logs_of w)
        → P (logs_of (handle_id W S now item o w).1)
    handle_id-keeps now item w none h =
        subst (λ (c : Conn W.Payload). P c.db.inference_logs) (sym (no_id-conn now item w)) h
    handle_id-keeps now item w (some i) h =
        unfold handle_id in
        >>=-cases (in_session W S now (ingest W S i item.payload)) (λ _. ack W S item.delivery_id) w
          (λ x. P (logs_of x.1)) (λ _ _. in_session-keeps now i item.payload w h)
          (λ _ _. in_session-keeps now i item.payload w h)

    handle_all-keeps :
        (now : ℕ) (items : List (DeliveredEvent W.Payload)) (w : World W S)
        → P (logs_of w)
        → P (logs_of (handle_all W S now items w).1)
    unfolding handle_all handle
    handle_all-keeps now [] w h = h
    handle_all-keeps now (item ∷ items) w h =
        let first = handle_id-keeps now item w (extract_id W item.payload) h in
        >>=-cases (handle W S now item) (λ _. handle_all W S now items) w (λ x. P (logs_of x.1))
          (λ _ _. first) (λ _ _. handle_all-keeps now items _ first)

    pub run_rounds-keeps :
        (n : ℕ) (nows : List ℕ) (w : World W S)
        → P (logs_of w)
        → P (logs_of (run_rounds W S n nows w))
    unfolding run_rounds
    run_rounds-keeps n [] w h = h
    run_rounds-keeps n (now ∷ nows) w h = run_rounds-keeps n nows _ (process_batch-keeps now)
      where
        process_batch-keeps : (now : ℕ) → P (logs_of (process_batch W S now n w).1)
        process_batch-keeps now =
            unfold process_batch in
            >>=-cases (poll W S n)
              (λ items.
                tally W S (λ o. record o { received = length items }) >> handle_all W S now items)
              (record w { outcome = new_outcome }) (λ x. P (logs_of x.1)) (λ _ _. h)
              (λ items _. handle_all-keeps now items _ h)

  -- A log row that has been written stays as it was written, whatever is delivered after it, in
  -- whatever batches, and whatever fails.
  pub written_once :
      (batch_size : ℕ) (nows : List ℕ) (w : World W S) (i : ℕ) (l : InferenceLog)
      → find_log i w.conn.db.inference_logs ≡ some l
      → find_log i (run_rounds W S batch_size nows w).conn.db.inference_logs ≡ some l
  written_once n nows w i l h =
      run_rounds-keeps (λ ls. find_log i ls ≡ some l) (λ e c. find-upsert_keeps e c i l) n nows w h

  -- No two log rows ever have the same id.
  pub rounds-DistinctIds :
      (batch_size : ℕ) (nows : List ℕ) (w : World W S)
      → DistinctIds w.conn.db.inference_logs
      → DistinctIds (run_rounds W S batch_size nows w).conn.db.inference_logs
  rounds-DistinctIds n nows w h = run_rounds-keeps DistinctIds upsert-DistinctIds n nows w h
