-- ===== src/Worker/Counters.antt =====
-- The counters of a batch, and what a redelivery does.
use llm_inference_logger.Prelude.{
  ℕ, suc, ◌+◌, ◌≡◌, refl, sym, ap, ◌∙◌, subst, true, Option, none, some, List, [], ◌∷◌, arith, Text,
  length,
}
use llm_inference_logger.Events.Wire.{Wire, extract_id, event_type_of, model_validate}
use llm_inference_logger.Worker.{
  BatchOutcome, handle_all, process_batch, store, ingest, handle_id, handle, Result, World,
  InferenceEvent, Work, poll, in_session, sql, tally, record_raw, ack, new_outcome,
}
use llm_inference_logger.Events.Stream.{EventStream, DeliveredEvent}
use llm_inference_logger.Prelude.Outcome.{is_ok, ok, >>=-returns, err, ◌>>◌}
use llm_inference_logger.Worker.Durable.{begun, in_session-ok}

-- The deliveries that the counters have put into one of the three classes.
abbrev pub classified : BatchOutcome → ℕ
classified o = o.inserted + o.duplicates + o.rejected

module _ (W : Wire) (S : EventStream W.Payload) where
  -- One more delivery is classified, and the number received is left alone.
  record Counted (o o' : BatchOutcome) : Type 0 where
    one_more : classified o' ≡ classified o + 1
    same_received : o'.received ≡ o.received

  store-Counted :
      (i : ℕ) (p : W.Payload) (v : Result Text InferenceEvent) (w : World W S)
      → is_ok (store W S i p v w).0 ≡ true
      → Counted w.outcome (store W S i p v w).1.outcome
  unfolding store
  store-Counted i p (ok e) w h = ground arith
  store-Counted i p (err why) w h = ground arith

  ingest-Counted :
      (i : ℕ) (p : W.Payload) (w : World W S)
      → is_ok (ingest W S i p w).0 ≡ true
      → Counted w.outcome (ingest W S i p w).1.outcome
  unfolding ingest
  ingest-Counted i p w h =
      >>=-returns (sql W S (record_raw i (event_type_of W p) p))
        (λ _. store W S i p (model_validate W p)) w (λ x. Counted w.outcome x.1.outcome) h
        (λ _ _ k. store-Counted i p (model_validate W p) _ k)

  handle_id-Counted :
      (now : ℕ) (item : DeliveredEvent W.Payload) (w : World W S) (o : Option ℕ)
      → is_ok (handle_id W S now item o w).0 ≡ true
      → Counted w.outcome (handle_id W S now item o w).1.outcome
  unfolding handle_id
  handle_id-Counted now item w none h = ground arith
  handle_id-Counted now item w (some i) h =
      let body = ingest W S i item.payload in
      >>=-returns (in_session W S now body) (λ _. ack W S item.delivery_id) w
        (λ x. Counted w.outcome x.1.outcome) h
        (λ _ returned _. subst (Counted w.outcome) (sym (outcome-in_session now body w)) (
          ingest-Counted i item.payload (begun W S now w)
            (in_session-ok W S now body w (ap is_ok returned)).0))
    where
      outcome-in_session :
          (now : ℕ) (body : Work W S (Unit {0})) (w : World W S)
          → (in_session W S now body w).1.outcome ≡ (body (begun W S now w)).1.outcome
      outcome-in_session now body w = unfold in_session in refl

  handle_all-classified :
      (now : ℕ) (items : List (DeliveredEvent W.Payload)) (w : World W S)
      → is_ok (handle_all W S now items w).0 ≡ true
      → (classified (handle_all W S now items w).1.outcome ≡ classified w.outcome + length items)
        × ((handle_all W S now items w).1.outcome.received ≡ w.outcome.received)
  unfolding handle_all handle
  handle_all-classified now [] w h = (omega arith, refl)
  handle_all-classified now (item ∷ items) w h =
      >>=-returns (handle W S now item) (λ _. handle_all W S now items) w
        (λ x.
          (classified x.1.outcome ≡ classified w.outcome + suc (length items))
          × (x.1.outcome.received ≡ w.outcome.received))
        h
        λ _ returned k.
          let first =
            handle_id-Counted now item w (extract_id W item.payload) (ap is_ok returned) in
          let rest = handle_all-classified now items (handle W S now item w).1 k in
          (omega (arith, first.one_more, rest.0), rest.1 ∙ first.same_received)

  -- After a batch that raised nothing, every delivery received has been counted once: as inserted,
  -- as a duplicate or as rejected.
  pub batch-classified :
      (now batch_size : ℕ) (w : World W S)
      → is_ok (process_batch W S now batch_size w).0 ≡ true
      → let o = (process_batch W S now batch_size w).1.outcome in
        o.received ≡ o.inserted + o.duplicates + o.rejected
  unfolding process_batch
  batch-classified now n w h =
      >>=-returns (poll W S n)
        (λ items. tally W S (λ o. record o { received = length items }) >> handle_all W S now items)
        (record w { outcome = new_outcome }) (λ x. x.1.outcome.received ≡ classified x.1.outcome) h
        λ items _ k. let all = handle_all-classified now items _ k in omega (arith, all.0, all.1)
