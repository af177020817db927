-- ===== src/Worker/Tests.antt =====
-- A small wire format and a small broker that meet the assumptions, runs over them, and the
-- theorems at concrete deliveries.
use llm_inference_logger.Prelude.{
  ℕ, ◌+◌, String, ◌≡◌, refl, inl, true, false, Option, none, some, List, [], ◌∷◌, codes, take, drop,
  pos, ◌&&◌,
}
use llm_inference_logger.Events.Stream
use llm_inference_logger.Db.Session.{Fault}
use llm_inference_logger.Domain.Json.{lit}
use llm_inference_logger.Events.Stream.{EventStream, DeliveredEvent}
use llm_inference_logger.Events.Wire.{extract_id, model_validate, event_type_of}
use llm_inference_logger.Domain.Event.{InferenceEvent, is_valid, fields_ok, check_invariants}
use llm_inference_logger.Worker.{
  process_batch, handle, World, ingest, new_outcome, store, in_session, handle_all, run_rounds,
}
use llm_inference_logger.Db.Tables.{
  empty_db, find_raw, find_log, log_types_ok, log_checks_ok, to_row,
}
use llm_inference_logger.Domain.Uuid.{print_uuid, parse_uuid, remove, strip_braces, int16}
use llm_inference_logger.Domain.Enums.{InferenceStatus}
use llm_inference_logger.Worker.Counters.{batch-classified}
use llm_inference_logger.Worker.Durable.{Accounted, ack-after-commit}
use llm_inference_logger.Prelude.Outcome.{is_ok, ok}
use llm_inference_logger.Worker.Once.{written_once}
use llm_inference_logger.Worker.Poison.{dangling-stops-batch}
use llm_inference_logger.Db.RawEvents.{record_raw, mark_processed, mark_failed}
use llm_inference_logger.Db.InferenceLogs.{upsert}
use llm_inference_logger.Events.Samples.{Packet, packets, typed, junk}
use llm_inference_logger.Worker.Delivered.{ints_fit, texts_storable, row-fits}

-- A broker with its deliveries in a list.
record Broker : Type 0 where
  waiting : List (DeliveredEvent Packet)
  done : List String
  diverted : List (Packet × String)

abbrev broker : EventStream Packet
broker = record {
  State = Broker;
  poll = λ n b. (ok (take n b.waiting), record b { waiting = drop n b.waiting });
  ack = λ d b. (ok tt, record b { done = d ∷ b.done });
  dead_letter = λ p why b. (ok tt, record b { diverted = (p, why) ∷ b.diverted });
  acked = λ b. b.done;
  dead = λ b. b.diverted;
}

broker-IsLawful : Stream.IsLawful broker
broker-IsLawful = record {
  ack-ok = λ d s h. refl;
  ack-acked = λ d s. inl refl;
  dead-ack = λ d s. refl;
  dead_letter-ok = λ p why s h. refl;
  acked-dead_letter = λ p why s. refl;
}

abbrev event : ℕ → Option ℕ → InferenceEvent
event i c = record {
  schema_version = pos 1;
  event_type = "inference.completed";
  id = i;
  conversation_id = c;
  message_id = none;
  provider = "mock";
  model = "mock-instant";
  status = InferenceStatus.success;
  streamed = true;
  started_at = 1000;
  completed_at = 2500;
  latency_ms = some (pos 1);
  ttft_ms = none;
  input_tokens = some (pos 3);
  output_tokens = some (pos 7);
  input_preview = none;
  output_preview = some (codes "hi");
  error_type = none;
  error_message = none;
  finish_reason = some "stop";
  raw_metadata = none;
}

abbrev delivery : String → Packet → DeliveredEvent Packet
delivery d p = record { delivery_id = d; payload = p }

abbrev world : List Fault → List (DeliveredEvent Packet) → World packets broker
world fs items = record {
  conn = record { db = empty_db Packet; now = 0; faults = fs };
  stream = record { waiting = items; done = []; diverted = [] };
  outcome = new_outcome;
}

run : ℕ → World packets broker → World packets broker
unfolding run_rounds process_batch handle ingest store in_session record_raw mark_processed
    mark_failed upsert find_raw find_log log_types_ok log_checks_ok extract_id model_validate
    event_type_of is_valid fields_ok check_invariants parse_uuid print_uuid remove strip_braces
    int16
run now w = (process_batch packets broker now 10 w).1

-- One event twice, one without an id, and one whose id is no UUID.
abbrev batch : List (DeliveredEvent Packet)
batch =
    delivery "1" (typed (event 5 none))
    ∷ delivery "2" (typed (event 5 none))
    ∷ delivery "3" (junk none)
    ∷ delivery "4" (junk (some (lit "not-a-uuid")))
    ∷ []

batch_counters :
    (run 9 (world [] batch)).outcome
    ≡ record { received = 4; inserted = 1; duplicates = 1; rejected = 2 }
unfolding run
batch_counters = refl

batch_acks : (run 9 (world [] batch)).stream.done ≡ "4" ∷ "3" ∷ "2" ∷ "1" ∷ []
unfolding run
batch_acks = refl

ack-after-commit_example :
    Accounted packets broker
      (delivery "1" (typed (event 5 none)))
      (world [] [])
      (handle packets broker 7 (delivery "1" (typed (event 5 none))) (world [] [])).1
      (extract_id packets (typed (event 5 none)))
ack-after-commit_example =
    ack-after-commit packets broker broker-IsLawful 7 (delivery "1" (typed (event 5 none)))
      (world [] []) (unfold run in λ e. cc e)

batch-classified_example :
    let o = (process_batch packets broker 9 10 (world [] batch)).1.outcome in
    o.received ≡ o.inserted + o.duplicates + o.rejected
batch-classified_example =
    batch-classified packets broker 9 10 (world [] batch) (unfold run in refl)

abbrev written : World packets broker
written = record (world [] batch) {
  conn = record {
    db = record (empty_db Packet) { inference_logs = to_row 4 (event 5 none) ∷ [] };
    now = 0;
    faults = [];
  };
}

written_once_example :
    find_log 5 (run_rounds packets broker 2 (1 ∷ 2 ∷ []) written).conn.db.inference_logs
    ≡ some (to_row 4 (event 5 none))
written_once_example =
    written_once packets broker 2 (1 ∷ 2 ∷ []) written 5 (to_row 4 (event 5 none))
      (unfold find_log to_row in refl)

dangling-stops-batch_example :
    let (r, w) =
      handle_all packets broker 9 (delivery "1" (typed (event 5 (some 8))) ∷ batch) (world [] []) in
    (is_ok r ≡ false) × (w.conn.db ≡ empty_db Packet) × (w.stream.done ≡ [])
dangling-stops-batch_example =
    dangling-stops-batch packets broker broker-IsLawful 9 (delivery "1" (typed (event 5 (some 8))))
      batch (world [] []) 5 (event 5 (some 8)) (unfold run in refl) (unfold run in refl)
      (record { conversation = 8; named = refl; gone = refl; new = unfold find_log in refl })

row-fits_example :
    (log_checks_ok (to_row 9 (event 5 none)) ≡ true)
    × (log_types_ok (to_row 9 (event 5 none))
        ≡ (ints_fit (event 5 none) && texts_storable (event 5 none)))
row-fits_example = row-fits 9 (event 5 none) (unfold is_valid fields_ok check_invariants in refl)

-- A preview with U+0000 in it passes the schema and is refused by its column.
nul_preview : InferenceEvent
nul_preview = record (event 5 none) { output_preview = some (104 ∷ 0 ∷ []) }

nul_preview_valid : is_valid nul_preview ≡ true
unfolding nul_preview is_valid fields_ok check_invariants
nul_preview_valid = refl

nul_preview_refused : log_types_ok (to_row 9 nul_preview) ≡ false
unfolding nul_preview log_types_ok to_row
nul_preview_refused = refl
