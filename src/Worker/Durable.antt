-- ===== src/Worker/Durable.antt =====
-- The order of `_handle`: committed first, acknowledged last; a log row is written once.
use llm_inference_logger.Prelude.{ℕ, ◌≡◌, refl, ap, ◌≢◌, ◌⊎◌, true, Option, none, some, ◌∷◌, arith}
use llm_inference_logger.Events.Stream
use llm_inference_logger.Events.Wire.{Wire, extract_id, model_validate}
use llm_inference_logger.Events.Stream.{EventStream, DeliveredEvent}
use llm_inference_logger.Worker.{World, in_session, handle, Work, handle_id, ingest, ack}
use llm_inference_logger.Prelude.Outcome.{is_ok, >>=-cases}
use llm_inference_logger.Worker.Ingest.{Settled, acked-ingest, ingest-Settled}

module _ (W : Wire) (S : EventStream W.Payload) where
  -- The body as it runs in its transaction.
  abbrev pub begun : ℕ → World W S → World W S
  begun now w = record w { conn = record w.conn { now = now } }

  -- A unit of work that returned has committed what its body did.
  pub in_session-ok :
      (now : ℕ) (body : Work W S (Unit {0})) (w : World W S)
      → is_ok (in_session W S now body w).0 ≡ true
      → (is_ok (body (begun now w)).0 ≡ true)
        × ((in_session W S now body w).1.conn.db ≡ (body (begun now w)).1.conn.db)
  unfolding in_session
  in_session-ok now body w h = ground arith

  -- Whatever happens, the tables are those from before or all that the body wrote.
  pub in_session-atomic :
      (now : ℕ) (body : Work W S (Unit {0})) (w : World W S)
      → ((in_session W S now body w).1.conn.db ≡ w.conn.db)
        ⊎ ((is_ok (body (begun now w)).0 ≡ true)
            × ((in_session W S now body w).1.conn.db ≡ (body (begun now w)).1.conn.db))
  unfolding in_session
  in_session-atomic now body w = ground arith

  pub in_session-stream :
      (now : ℕ) (body : Work W S (Unit {0})) (w : World W S)
      → (in_session W S now body w).1.stream ≡ (body (begun now w)).1.stream
  unfolding in_session
  in_session-stream now body w = refl

  -- What stands on record for a delivery that was acknowledged: a diverted payload where it had no
  -- id, and a settled row of the landing zone otherwise.
  abbrev pub Accounted : DeliveredEvent W.Payload → World W S → World W S → Option ℕ → Type 0
  Accounted item w w' none =
      S.dead w'.stream ≡ (item.payload, "missing_or_invalid_id") ∷ S.dead w.stream
  Accounted item w w' (some i) = Settled W S i (model_validate W item.payload) w'.conn.db

  module _ (L : Stream.IsLawful S) where
    handle_id-Accounted :
        (now : ℕ) (item : DeliveredEvent W.Payload) (w : World W S) (o : Option ℕ)
        → S.acked (handle_id W S now item o w).1.stream ≢ S.acked w.stream
        → Accounted item w (handle_id W S now item o w).1 o
    unfolding handle_id
    handle_id-Accounted now item w none changed = ground (
      arith,
      L.acked-dead_letter item.payload "missing_or_invalid_id" w.stream,
      L.dead_letter-ok item.payload "missing_or_invalid_id" w.stream,
      L.dead-ack item.delivery_id (S.dead_letter item.payload "missing_or_invalid_id" w.stream).1,
    )
    handle_id-Accounted now item w (some i) changed =
        let body = ingest W S i item.payload in
        >>=-cases (in_session W S now body) (λ _. ack W S item.delivery_id) w
          (λ x.
            S.acked x.1.stream ≢ S.acked w.stream
            → Settled W S i (model_validate W item.payload) x.1.conn.db)
          (λ e raised k. absurd (
            k (
              rw (in_session-stream now body w) (acked-ingest W S i item.payload L (begun now w)))))
          (λ _ returned _. rw ((in_session-ok now body w (ap is_ok returned)).1) (
            ingest-Settled W S i item.payload (begun now w)
              (in_session-ok now body w (ap is_ok returned)).0))
          changed

    -- If handling a delivery has changed what is acknowledged, the delivery is accounted for: its
    -- payload is in the dead-letter queue where it has no usable id, and otherwise the committed
    -- tables hold its raw row, processed with the log row beside it or failed with the reason.
    -- This holds for every schedule of database faults.
    pub ack-after-commit :
        (now : ℕ) (item : DeliveredEvent W.Payload) (w : World W S)
        → S.acked (handle W S now item w).1.stream ≢ S.acked w.stream
        → Accounted item w (handle W S now item w).1 (extract_id W item.payload)
    unfolding handle
    ack-after-commit now item w changed =
        handle_id-Accounted now item w (extract_id W item.payload) changed
