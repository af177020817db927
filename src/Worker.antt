-- ===== src/Worker.antt =====
-- backend/app/worker/consumer.py: the ingestion worker, over any wire format and any stream.
mod Ingest
pub mod Durable
pub mod Once
pub mod Counters
pub mod Poison
pub mod Delivered
mod Tests
use llm_inference_logger.Prelude.{
  ℕ, ◌+◌, String, Text, Bool, none, some, List, [], ◌∷◌, length, if◌then◌else◌, Option,
}
use llm_inference_logger.Prelude.Outcome.{Result, ok, err, Exec, continue, ◌>>=◌, ◌>>◌}
use llm_inference_logger.Core.Errors.{Exn}
use llm_inference_logger.Domain.Event.{InferenceEvent}
use llm_inference_logger.Events.Wire.{Wire, model_validate, extract_id, event_type_of}
use llm_inference_logger.Events.Stream.{EventStream, DeliveredEvent}
use llm_inference_logger.Db.Session.{Conn, Sql, finish}
use llm_inference_logger.Db.RawEvents.{record_raw, mark_processed, mark_failed}
use llm_inference_logger.Db.InferenceLogs.{upsert}

-- `BatchOutcome`
pub record BatchOutcome : Type 0 where
  pub received : ℕ
  pub inserted : ℕ
  pub duplicates : ℕ
  pub rejected : ℕ

abbrev pub new_outcome : BatchOutcome
new_outcome = record { received = 0; inserted = 0; duplicates = 0; rejected = 0 }

module _ (W : Wire) (S : EventStream W.Payload) where
  -- The worker's world: the database connection, the stream, and the counters of the batch, which
  -- `_handle` mutates in place.
  pub record World : Type 0 where
    pub conn : Conn W.Payload
    pub stream : S.State
    pub outcome : BatchOutcome

  abbrev pub Work : Type 0 → Type 0
  Work A = Exec World Exn A

  abbrev pub sql : {A : Type 0} → Sql W.Payload A → Work A
  sql m w = let (r, c) = m w.conn in (r, record w { conn = c })

  abbrev pub ack : String → Work (Unit {0})
  ack d w = let (r, s) = S.ack d w.stream in (r, record w { stream = s })

  abbrev pub dead_letter : W.Payload → String → Work (Unit {0})
  dead_letter p why w = let (r, s) = S.dead_letter p why w.stream in (r, record w { stream = s })

  abbrev pub tally : (BatchOutcome → BatchOutcome) → Work (Unit {0})
  tally f w = (ok tt, record w { outcome = f w.outcome })

  abbrev pub add_rejected : BatchOutcome → BatchOutcome
  add_rejected o = record o { rejected = o.rejected + 1 }

  abbrev pub add_written : Bool → BatchOutcome → BatchOutcome
  add_written inserted o =
      if inserted
      then record o { inserted = o.inserted + 1 }
      else record o { duplicates = o.duplicates + 1 }

  -- `except ValidationError` and `else`
  unfoldable pub store : ℕ → W.Payload → Result Text InferenceEvent → Work (Unit {0})
  store i p (err why) = do
    sql (mark_failed i why)
    dead_letter p "schema_validation_failed"
    tally add_rejected
  store i p (ok e) = do
    inserted ← sql (upsert e)
    sql (mark_processed i)
    tally (add_written inserted)

  -- The body of the `async with`.
  unfoldable pub ingest : ℕ → W.Payload → Work (Unit {0})
  ingest i p = do sql (record_raw i (event_type_of W p) p); store i p (model_validate W p)

  -- The unit of work around `ingest`: what it did to the stream and the counters stays when the
  -- transaction is rolled back.
  unfoldable pub in_session : ℕ → Work (Unit {0}) → Work (Unit {0})
  in_session now body w =
      let (r, w') = body (record w { conn = record w.conn { now = now } }) in
      let (r', c) = finish w.conn.db (r, w'.conn) in (r', record w' { conn = c })

  -- `_handle` once the id has been looked for.
  unfoldable pub handle_id : ℕ → DeliveredEvent W.Payload → Option ℕ → Work (Unit {0})
  handle_id now item none = do
    dead_letter item.payload "missing_or_invalid_id"
    ack item.delivery_id
    tally add_rejected
  handle_id now item (some i) = do in_session now (ingest i item.payload); ack item.delivery_id

  -- `_handle`, with the time at which its transaction begins.
  unfoldable pub handle : ℕ → DeliveredEvent W.Payload → Work (Unit {0})
  unfolding handle_id
  handle now item = handle_id now item (extract_id W item.payload)

  -- The loop of `process_batch`: an exception leaves the rest of the batch unhandled.
  unfoldable pub handle_all : ℕ → List (DeliveredEvent W.Payload) → Work (Unit {0})
  handle_all now [] w = (ok tt, w)
  handle_all now (item ∷ items) w =
      let (r, w') = handle now item w in continue r (λ _. handle_all now items) w'

  abbrev pub poll : ℕ → Work (List (DeliveredEvent W.Payload))
  poll n w = let (r, s) = S.poll n w.stream in (r, record w { stream = s })

  -- `process_batch`
  unfoldable pub process_batch : ℕ → ℕ → Work (Unit {0})
  unfolding handle_all
  process_batch now batch_size w =
      let w₀ = record w { outcome = new_outcome } in
      (do
        delivered ← poll batch_size
        tally (λ o. record o { received = length delivered })
        handle_all now delivered)
        w₀

  -- `run_forever` for as many rounds as pass before the stop is seen, one clock reading for each:
  -- an exception is logged, and the loop goes on.
  unfoldable pub run_rounds : ℕ → List ℕ → World → World
  unfolding process_batch
  run_rounds batch_size [] w = w
  run_rounds batch_size (now ∷ nows) w =
      run_rounds batch_size nows (process_batch now batch_size w).1
