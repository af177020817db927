-- ===== src/Pipeline.antt =====
-- From a provider call to its row: the instrumented call of the API process, the transport, and the
-- worker, put together.

mod Tests
use llm_inference_logger.Prelude.{
  ℕ, suc, ◌^◌, ◌<◌, ◌≡◌, refl, sym, ap, ◌∙◌, subst, inl, inr, true, some, [], ◌∷◌, decimal,
  take-nil, drop-nil,
}
use llm_inference_logger.Events.Wire
use llm_inference_logger.Prelude.Outcome.{Result, ok, err, is_ok}
use llm_inference_logger.Domain.Event.{InferenceEvent, is_valid}
use llm_inference_logger.Events.Wire.{Wire, extract_id, model_validate, event_type_of}
use llm_inference_logger.Events.Stream.{EventStream, DeliveredEvent}
use llm_inference_logger.Events.Memory.{
  Memory, empty_bus, publish, memory_stream, poll, publish_all,
}
use llm_inference_logger.Db.Tables.{Db, find_log, to_row, InferenceLog}
use llm_inference_logger.Db.Session.{Conn}
use llm_inference_logger.Worker.{World, handle, process_batch, handle_all, new_outcome}
use llm_inference_logger.Worker.Delivered.{HasRoom, handle-dumped}
use llm_inference_logger.Providers.Base.{ChatRequest}
use llm_inference_logger.Instrumentation.Wrapper.{Wrapped, Call, build_event, stream_chat}
use llm_inference_logger.Instrumentation.Wrapper.Once.{
  Publishable, build_event-is_valid, one-event-per-call,
}
use llm_inference_logger.Db.Session.Laws.{Result-cases}
use llm_inference_logger.Instrumentation.Wrapper.Fields.{event-measures}

module _ (W : Wire) where
  -- The worker's world before it looks at the bus.
  abbrev pub worker_at : Db W.Payload → ℕ → Memory W → World W (memory_stream W)
  worker_at db now bus = record {
    conn = record { db = db; now = now; faults = [] };
    stream = bus;
    outcome = new_outcome;
  }

  -- The batch of one delivery: what its handling leaves.
  handle_all-one :
      (now : ℕ) (item : DeliveredEvent W.Payload) (v : World W (memory_stream W))
      → (handle_all W (memory_stream W) now (item ∷ []) v).1
        ≡ (handle W (memory_stream W) now item v).1
  unfolding handle_all
  handle_all-one now item v = elim (Result-cases (handle W (memory_stream W) now item v).0) [
    | inl (a, e) ↦ rw e refl
    | inr (x, e) ↦ rw e refl
  ]

  -- What the worker has in hand once it has polled a bus that holds one event.
  abbrev item_of : InferenceEvent → DeliveredEvent W.Payload
  item_of e = record { delivery_id = decimal 1; payload = W.dump e }

  abbrev polled : InferenceEvent → Memory W
  polled e = record { pending = []; counter = 1; published = e ∷ []; dead_lettered = [] }

  abbrev one_received : Db W.Payload → ℕ → InferenceEvent → World W (memory_stream W)
  one_received db now e = record (worker_at db now (polled e)) {
    outcome = record { received = 1; inserted = 0; duplicates = 0; rejected = 0 };
  }

  process_batch-one :
      (e : InferenceEvent) (db : Db W.Payload) (now before n : ℕ)
      → (process_batch W
          (memory_stream W)
          now
          (suc n)
          (worker_at db before (publish_all W (e ∷ []) (empty_bus W)))).1
        ≡ (handle W (memory_stream W) now (item_of e) (one_received db before e)).1
  unfolding process_batch publish_all publish poll
  process_batch-one e db now before n =
      rw (take-nil n) (rw (drop-nil n) (handle_all-one now (item_of e) (one_received db before e)))

  -- After a batch of at most `n`, the log holds the row of `e` under the id `i`, one delivery was
  -- received and inserted, and the bus is empty.
  abbrev pub Logged : ℕ → ℕ → World W (memory_stream W) → ℕ → InferenceEvent → Type 0
  Logged now n v i e =
      let v' = (process_batch W (memory_stream W) now n v).1 in
      (find_log i v'.conn.db.inference_logs ≡ some (to_row now e))
      × (v'.outcome ≡ record { received = 1; inserted = 1; duplicates = 0; rejected = 0 })
      × (v'.stream.pending ≡ [])

  module _ (L : Wire.IsLawful W) where
    published-Logged :
        (e : InferenceEvent) (db : Db W.Payload) (now before n : ℕ)
        → is_valid e ≡ true
        → e.id < 2 ^ 128
        → HasRoom W L e now db
        → Logged now (suc n) (worker_at db before (publish_all W (e ∷ []) (empty_bus W))) e.id e
    published-Logged e db now before n valid small room =
        let ran = process_batch-one e db now before n in
        let h =
          handle-dumped W L e (memory_stream W) now (one_received db before e) valid refl room
            (decimal 1) small in
        (
          ap (λ v. find_log e.id v.conn.db.inference_logs) ran ∙ h.0,
          ap (λ v. v.outcome) ran ∙ h.1,
          ap (λ v. v.stream.pending) ran ∙ ap (λ m. m.pending) h.2,
        )

    -- An instrumented call that the schema has room for, on a bus that was empty, becomes the row of
    -- the log that says what the call did, in the next batch that the worker takes, however the call
    -- ended. The event's id has 128 bits, the database serves every statement, the event is new to
    -- it, its values fit their columns and the rows that it names exist.
    pub traced-call-Logged :
        (w : Wrapped) (request : ChatRequest) (c : Call) (db : Db W.Payload)
        (now before batch_size : ℕ)
        → Publishable w request c
        → c.event_id < 2 ^ 128
        → HasRoom W L (build_event w request c) now db
        → let bus = publish_all W (stream_chat w request c).published (empty_bus W) in
          Logged now (suc batch_size) (worker_at db before bus) c.event_id (build_event w request c)
    traced-call-Logged w request c db now before batch_size p small room =
        let e = build_event w request c in
        let named = (event-measures w request c).0 in
        let one =
          published-Logged e db now before batch_size (build_event-is_valid w request c p)
            (subst (λ i. i < 2 ^ 128) (sym named) small) room in
        subst
          (λ es.
            Logged now (suc batch_size) (worker_at db before (publish_all W es (empty_bus W)))
              c.event_id e)
          (sym (one-event-per-call w request c p).0)
          (subst
            (λ i.
              Logged now (suc batch_size)
                (worker_at db before (publish_all W (e ∷ []) (empty_bus W))) i e)
            named one)
