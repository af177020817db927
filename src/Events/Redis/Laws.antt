-- ===== src/Events/Redis/Laws.antt =====
-- The Redis transport meets the contract of the stream, and publishing never raises a failure of
-- the transport.
use llm_inference_logger.Prelude.{
  ℕ, String, ◌≡◌, refl, ap, ◌∙◌, ◌⊎◌, inl, inr, true, false, none, some, List, [], ◌∷◌, arith,
}
use llm_inference_logger.Prelude.Outcome.{Result, ok, err, Exec, pure, continue}
use llm_inference_logger.Core.Errors.{Exn, other}
use llm_inference_logger.Domain.Event.{InferenceEvent}
use llm_inference_logger.Events.Stream.{EventStream, DeliveredEvent}
use llm_inference_logger.Events.Stream
use llm_inference_logger.Events.Redis.{
  Client, JsonCodec, StreamSettings, EntryFields, field_name, publish, ack, dead_letter, dead_entry,
  dead_entries, redis_stream, observed, buried,
}

-- What the module relies on. XACK adds its delivery to those of its group, and XADD its entry to
-- its stream, and a call that is answered has had its effect; neither touches what the other
-- writes. A call under `asyncio.timeout` ends by itself or by TimeoutError.
pub record IsLawful {P : Type 0} (C : Client) (J : JsonCodec P) : Type 1 where
  pub loads-dumps : (p : P) → J.loads (J.dumps p) ≡ some p
  pub xack-ok :
      (stream group d : String) (n : ℕ) (s : C.State)
      → (C.xack stream group d s).0 ≡ ok n
      → C.acked stream group (C.xack stream group d s).1 ≡ d ∷ C.acked stream group s
  pub xack-acked :
      (stream group d : String) (s : C.State)
      → (C.acked stream group (C.xack stream group d s).1 ≡ d ∷ C.acked stream group s)
        ⊎ (C.acked stream group (C.xack stream group d s).1 ≡ C.acked stream group s)
  pub added-xack :
      (stream group d other : String) (s : C.State)
      → C.added other (C.xack stream group d s).1 ≡ C.added other s
  pub xadd-ok :
      (stream id : String) (f : EntryFields) (n : ℕ) (s : C.State)
      → (C.xadd stream f n s).0 ≡ ok id
      → C.added stream (C.xadd stream f n s).1 ≡ f ∷ C.added stream s
  pub acked-xadd :
      (stream : String) (f : EntryFields) (n : ℕ) (other group : String) (s : C.State)
      → C.acked other group (C.xadd stream f n s).1 ≡ C.acked other group s
  pub within-outcome :
      {A : Type 0} (t : ℕ) (m : Exec C.State Exn A) (s : C.State)
      → (C.within t m s ≡ m s)
        ⊎ ((message : String) × ((C.within t m s).0 ≡ err (other "TimeoutError" message)))

-- A call whose answer is dropped: the state it leaves, and its having been answered.
module _ {S E A : Type 0} where
  state-done : (r : Result E A) (s : S) → (continue r (λ a. pure tt) s).1 ≡ s
  state-done (ok a) s = refl
  state-done (err x) s = refl

  result-done :
      (r : Result E A) (s : S) → (continue r (λ a. pure tt) s).0 ≡ ok tt → (a : A) × (r ≡ ok a)
  result-done (ok a) s h = (a, refl)
  result-done (err x) s h = absurd (ground (arith, h))

module _ {P : Type 0} (C : Client) (J : JsonCodec P) (S : StreamSettings) (law : IsLawful C J) where
  pub state-ack :
      (d : String) (s : C.State)
      → (ack C J S d s).1 ≡ (C.xack S.event_stream_name S.event_consumer_group d s).1
  unfolding ack
  state-ack d s =
      let r = C.xack S.event_stream_name S.event_consumer_group d s in state-done r.0 r.1

  pub letter : P → String → EntryFields
  letter p why = (field_name, J.dumps p) ∷ ("reason", why) ∷ []

  pub state-dead_letter :
      (p : P) (why : String) (s : C.State)
      → (dead_letter C J S p why s).1 ≡ (C.xadd S.event_stream_dlq (letter p why) 10000 s).1
  unfolding dead_letter letter
  state-dead_letter p why s =
      let r = C.xadd S.event_stream_dlq (letter p why) 10000 s in state-done r.0 r.1

  dead_entry-letter : (p : P) (why : String) → dead_entry C J S (letter p why) ≡ some (p, why)
  unfolding letter
  dead_entry-letter p why =
      ap (λ o. elim o [ none ↦ none | some q ↦ some (q, why) ]) (law.loads-dumps p)

  ack_ok :
      (d : String) (s : C.State)
      → (ack C J S d s).0 ≡ ok tt
      → observed C J S (ack C J S d s).1 ≡ d ∷ observed C J S s
  unfolding ack
  ack_ok d s h =
      let r = C.xack S.event_stream_name S.event_consumer_group d s in
      let (n, e) = result-done r.0 r.1 h in
      ap (observed C J S) (state-ack d s)
      ∙ law.xack-ok S.event_stream_name S.event_consumer_group d n s e

  dead_letter_ok :
      (p : P) (why : String) (s : C.State)
      → (dead_letter C J S p why s).0 ≡ ok tt
      → buried C J S (dead_letter C J S p why s).1 ≡ (p, why) ∷ buried C J S s
  unfolding dead_letter letter
  dead_letter_ok p why s h =
      let r = C.xadd S.event_stream_dlq (letter p why) 10000 s in
      let (id, e) = result-done r.0 r.1 h in
      ap (buried C J S) (state-dead_letter p why s)
      ∙ ap (dead_entries C J S) (law.xadd-ok S.event_stream_dlq id (letter p why) 10000 s e)
      ∙ ap (λ o. elim o [ none ↦ buried C J S s | some d ↦ d ∷ buried C J S s ])
          (dead_entry-letter p why)

  -- The consumer's side over Redis meets the contract that the worker's theorems take: an
  -- acknowledgement that returned is recorded, one that raised is recorded or not, and a payload
  -- whose diversion returned is in the dead-letter queue with its reason; neither call touches
  -- what the other records. The client and the codec meet their laws.
  pub redis_stream-IsLawful : Stream.IsLawful (redis_stream C J S)
  unfolding redis_stream
  redis_stream-IsLawful = record {
    ack-ok = ack_ok;
    ack-acked = λ d s. elim (law.xack-acked S.event_stream_name S.event_consumer_group d s) [
      | inl e ↦ inl (ap (observed C J S) (state-ack d s) ∙ e)
      | inr e ↦ inr (ap (observed C J S) (state-ack d s) ∙ e)
    ];
    dead-ack = λ d s.
        ap (buried C J S) (state-ack d s)
        ∙ ap (dead_entries C J S)
            (law.added-xack S.event_stream_name S.event_consumer_group d S.event_stream_dlq s);
    dead_letter-ok = dead_letter_ok;
    acked-dead_letter = λ p why s.
        ap (observed C J S) (state-dead_letter p why s)
        ∙ law.acked-xadd S.event_stream_dlq (letter p why) 10000 S.event_stream_name
            S.event_consumer_group s;
  }

  abbrev published : C.State → List EntryFields
  published s = C.added S.event_stream_name s

  -- The entry that an event is published as.
  abbrev pub event_entry : InferenceEvent → EntryFields
  event_entry e = (field_name, J.model_dump_json e) ∷ []

  -- How a publish may end.
  abbrev pub PublishEnds : InferenceEvent → C.State → Type 0
  PublishEnds e s =
      (((publish C J S e s).0 ≡ ok true)
        × (published (publish C J S e s).1 ≡ event_entry e ∷ published s))
      ⊎ (((publish C J S e s).0 ≡ ok false) ⊎ ((publish C J S e s).0 ≡ err Exn.cancelled))
