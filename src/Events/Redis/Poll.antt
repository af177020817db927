-- ===== src/Events/Redis/Poll.antt =====
-- What a poll over Redis delivers, and what becomes of the entries that it cannot read.
use llm_inference_logger.Prelude.{
  ℕ, String, ◌≡◌, refl, sym, ap, ◌∙◌, subst, inl, inr, Option, none, some, List, [], ◌∷◌, map,
  Option-cases,
}
use llm_inference_logger.Prelude.Outcome.{Result, ok, Exec, pure, continue, ◌>>=◌, ◌>>◌}
use llm_inference_logger.Core.Errors.{Exn}
use llm_inference_logger.Events.Stream.{DeliveredEvent}
use llm_inference_logger.Events.Stream
use llm_inference_logger.Events.Redis.{
  Client, JsonCodec, StreamSettings, EntryFields, decode, ack, dead_letter, deliver, reply_entries,
  poll, poll_outcome, redis_stream, observed, buried, new_entries,
}
use llm_inference_logger.Events.Redis.Laws
use llm_inference_logger.Events.Redis.Laws.{redis_stream-IsLawful}

module _ {P : Type 0} (C : Client) (J : JsonCodec P) (S : StreamSettings) where
  -- The entries that are events, and those that are not.
  abbrev pub readable : List (String × EntryFields) → List (DeliveredEvent P)
  readable [] = []
  readable ((d, fields) ∷ es) =
      let rest = readable es in
      elim (decode C J S fields) [
        | none ↦ rest
        | some p ↦ record { delivery_id = d; payload = p } ∷ rest
      ]

  abbrev pub malformed : List (String × EntryFields) → List (String × EntryFields)
  malformed [] = []
  malformed ((d, fields) ∷ es) =
      let rest = malformed es in
      elim (decode C J S fields) [ none ↦ (d, fields) ∷ rest | some p ↦ rest ]

  -- Entries put in front of a list, one after another.
  abbrev pub onto : {A : Type 0} → List A → List A → List A
  onto [] base = base
  onto (x ∷ xs) base = onto xs (x ∷ base)

  -- What a poll of some entries leaves: the events in their order, and of the other entries an
  -- acknowledgement and a dead letter each.
  pub record Delivers (es : List (String × EntryFields)) (s : C.State)
      (out : Result Exn (List (DeliveredEvent P)) × C.State) : Type 0 where
    pub events : out.0 ≡ ok (readable es)
    pub acked : observed C J S out.1 ≡ onto (map (λ e. e.0) (malformed es)) (observed C J S s)
    pub diverted :
        buried C J S out.1
        ≡ onto (map (λ e. (J.raw e.1, "malformed_json")) (malformed es)) (buried C J S s)

  module _ (law : Laws.IsLawful C J) (acks : (d : String) (s : C.State) → (ack C J S d s).0 ≡ ok tt)
      (diverts : (p : P) (why : String) (s : C.State) → (dead_letter C J S p why s).0 ≡ ok tt) where
    -- Diverting and acknowledging one entry, with what comes after.
    pub after-malformed :
        (d : String) (fields : EntryFields) (es : List (String × EntryFields)) (s : C.State)
        → let t = (dead_letter C J S (J.raw fields) "malformed_json" s).1 in
          deliver C J S es (ack C J S d t).1
          ≡ (dead_letter C J S (J.raw fields) "malformed_json" >> ack C J S d >> deliver C J S es) s
    after-malformed d fields es s =
        let m = dead_letter C J S (J.raw fields) "malformed_json" s in
        let a = ack C J S d m.1 in
        sym (
          ap
            (λ r.
              continue (continue r (λ u. ack C J S d) m.1).0 (λ u. deliver C J S es)
                (continue r (λ u. ack C J S d) m.1).1)
            (diverts (J.raw fields) "malformed_json" s)
          ∙ ap (λ r. continue r (λ u. deliver C J S es) a.1) (acks d m.1))

    -- The round of the loop for an entry, by what it decodes to.
    abbrev pub by_decoding :
        Option P
        → String
        → EntryFields
        → List (String × EntryFields)
        → Exec C.State Exn (List (DeliveredEvent P))
    by_decoding o d fields es = elim o [
      | none ↦ dead_letter C J S (J.raw fields) "malformed_json" >> ack C J S d >> deliver C J S es
      | some p ↦ deliver C J S es >>= λ ds. pure (record { delivery_id = d; payload = p } ∷ ds)
    ]

    skip-entry :
        (d : String) (fields : EntryFields) (es : List (String × EntryFields)) (s : C.State)
        → decode C J S fields ≡ none
        → ((t : C.State) → Delivers es t (deliver C J S es t))
        → Delivers ((d, fields) ∷ es) s (deliver C J S ((d, fields) ∷ es) s)
    unfolding deliver redis_stream
    skip-entry d fields es s e later =
        let lawful : Stream.IsLawful (redis_stream C J S) = redis_stream-IsLawful C J S law in
        let m = dead_letter C J S (J.raw fields) "malformed_json" s in
        let a = ack C J S d m.1 in
        let rest = later a.1 in
        let step : deliver C J S ((d, fields) ∷ es) s ≡ deliver C J S es a.1 =
          ap (λ o. by_decoding o d fields es s) e ∙ sym (after-malformed d fields es s) in
        let ids : map (λ x. x.0) (malformed ((d, fields) ∷ es))
            ≡ d ∷ map (λ x. x.0) (malformed es) =
          ap
            (λ o.
              map (λ x. x.0) (elim o [ none ↦ (d, fields) ∷ malformed es | some p ↦ malformed es ]))
            e in
        let letters : map (λ x. (J.raw x.1, "malformed_json")) (malformed ((d, fields) ∷ es))
            ≡ (J.raw fields, "malformed_json")
              ∷ map (λ x. (J.raw x.1, "malformed_json")) (malformed es) =
          ap
            (λ o.
              map (λ x. (J.raw x.1, "malformed_json"))
                (elim o [ none ↦ (d, fields) ∷ malformed es | some p ↦ malformed es ]))
            e in
        record {
          events =
              ap (λ z. z.0) step
              ∙ rest.events
              ∙ sym (
                  ap
                    (λ o. ok (elim o [
                      | none ↦ readable es
                      | some p ↦ record { delivery_id = d; payload = p } ∷ readable es
                    ]))
                    e);
          acked =
              ap (λ z. observed C J S z.1) step
              ∙ rest.acked
              ∙ ap (onto (map (λ x. x.0) (malformed es))) (
                  lawful.ack-ok d m.1 (acks d m.1)
                  ∙ ap (◌∷◌ d) (lawful.acked-dead_letter (J.raw fields) "malformed_json" s))
              ∙ sym (ap (λ xs. onto xs (observed C J S s)) ids);
          diverted =
              ap (λ z. buried C J S z.1) step
              ∙ rest.diverted
              ∙ ap (onto (map (λ x. (J.raw x.1, "malformed_json")) (malformed es))) (
                  lawful.dead-ack d m.1
                  ∙ lawful.dead_letter-ok (J.raw fields) "malformed_json" s
                      (diverts (J.raw fields) "malformed_json" s))
              ∙ sym (ap (λ xs. onto xs (buried C J S s)) letters);
        }

    keep-entry :
        (d : String) (fields : EntryFields) (es : List (String × EntryFields)) (s : C.State) (p : P)
        → decode C J S fields ≡ some p
        → Delivers es s (deliver C J S es s)
        → Delivers ((d, fields) ∷ es) s (deliver C J S ((d, fields) ∷ es) s)
    unfolding deliver
    keep-entry d fields es s p e rest =
        let item : DeliveredEvent P = record { delivery_id = d; payload = p } in
        let t = deliver C J S es s in
        let step : deliver C J S ((d, fields) ∷ es) s ≡ (ok (item ∷ readable es), t.1) =
          ap (λ o. by_decoding o d fields es s) e
          ∙ ap (λ r. continue r (λ ds. pure (item ∷ ds)) t.1) rest.events in
        let same : malformed ((d, fields) ∷ es) ≡ malformed es =
          ap (λ o. elim o [ none ↦ (d, fields) ∷ malformed es | some q ↦ malformed es ]) e in
        record {
          events =
              ap (λ z. z.0) step
              ∙ sym (
                  ap
                    (λ o. ok (elim o [
                      | none ↦ readable es
                      | some q ↦ record { delivery_id = d; payload = q } ∷ readable es
                    ]))
                    e);
          acked =
              ap (λ z. observed C J S z.1) step
              ∙ rest.acked
              ∙ sym (ap (λ xs. onto (map (λ x. x.0) xs) (observed C J S s)) same);
          diverted =
              ap (λ z. buried C J S z.1) step
              ∙ rest.diverted
              ∙ sym (
                  ap (λ xs. onto (map (λ x. (J.raw x.1, "malformed_json")) xs) (buried C J S s))
                    same);
        }

    deliver-Delivers :
        (es : List (String × EntryFields)) (s : C.State) → Delivers es s (deliver C J S es s)
    unfolding deliver
    deliver-Delivers [] s = record { events = refl; acked = refl; diverted = refl }
    deliver-Delivers ((d, fields) ∷ es) s = elim (Option-cases (decode C J S fields)) [
      | inl e ↦ skip-entry d fields es s e (λ t. deliver-Delivers es t)
      | inr e ↦ keep-entry d fields es s e.0 e.1 (deliver-Delivers es s)
    ]

    -- Where the broker takes every acknowledgement and every dead letter, a poll whose read of new
    -- entries is answered returns the entries that are events, in their order, and acknowledges none
    -- of them; each other entry is acknowledged and its text is in the dead-letter queue, once and
    -- in order. The client and the codec meet their laws.
    pub poll-Delivers :
        (n : ℕ) (s : C.State) (reply : List (String × List (String × EntryFields)))
        → (C.xreadgroup S.event_consumer_group S.consumer S.event_stream_name new_entries n s).0
          ≡ ok reply
        → Delivers
            (reply_entries C J S reply)
            (C.xreadgroup S.event_consumer_group S.consumer S.event_stream_name new_entries n s).1
            (poll C J S n s)
    unfolding poll
    poll-Delivers n s reply h =
        let r =
          C.xreadgroup S.event_consumer_group S.consumer S.event_stream_name new_entries n s in
        subst (λ z. Delivers (reply_entries C J S reply) r.1 (poll_outcome C J S (z, r.1))) (sym h)
          (deliver-Delivers (reply_entries C J S reply) r.1)
