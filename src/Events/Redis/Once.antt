-- ===== src/Events/Redis/Once.antt =====
-- A running consumer is handed each entry once.
use llm_inference_logger.Prelude.{
  if◌then◌else◌, ℕ, ◌+◌, String, ◌≡◌, refl, sym, ap, ◌∙◌, inl, inr, Option, none, some, List, [],
  ◌∷◌, ◌++◌, Option-cases, take, drop, take-more, str_eq,
}
use llm_inference_logger.Prelude.Outcome.{Result, ok, err, pure, continue}
use llm_inference_logger.Core.Errors.{Exn}
use llm_inference_logger.Events.Stream.{DeliveredEvent}
use llm_inference_logger.Events.Redis.{
  Client, JsonCodec, StreamSettings, EntryFields, decode, ack, dead_letter, deliver, reply_entries,
  poll, poll_outcome, new_entries,
}
use llm_inference_logger.Events.Redis.Laws
use llm_inference_logger.Events.Redis.Laws.{state-ack, state-dead_letter, letter}
use llm_inference_logger.Events.Redis.Poll.{readable, poll-Delivers, after-malformed, by_decoding}

module _ {P : Type 0} (C : Client) (J : JsonCodec P) (S : StreamSettings) where
  -- `waiting` are the entries of the stream that the group has not been handed, the oldest first,
  -- and `replayed` those that the consumer was handed and has not acknowledged, as a read from an id
  -- gives them again. A read of ">" takes from the front of the former; a read of any other id gives
  -- the latter and leaves the former, as everything else does that the consumer asks for.
  pub record IsQueue (waiting : C.State → List (String × EntryFields))
      (replayed : String → ℕ → C.State → List (String × EntryFields)) : Type 0 where
    pub read :
        (id : String) (n : ℕ) (s : C.State)
        → let r = C.xreadgroup S.event_consumer_group S.consumer S.event_stream_name id n s in
          let is_new = str_eq id ">" in
          (reply : List (String × List (String × EntryFields))) × (r.0 ≡ ok reply)
          × (reply_entries C J S reply ≡ (if is_new then take n (waiting s) else replayed id n s))
          × (waiting r.1 ≡ (if is_new then drop n (waiting s) else waiting s))
    pub acked :
        (d : String) (s : C.State)
        → waiting (C.xack S.event_stream_name S.event_consumer_group d s).1 ≡ waiting s
    pub diverted :
        (f : EntryFields) (n : ℕ) (s : C.State)
        → waiting (C.xadd S.event_stream_dlq f n s).1 ≡ waiting s

  -- What polls of several sizes return, where the consumer does `between` after each.
  abbrev pub returned : Result Exn (List (DeliveredEvent P)) → List (DeliveredEvent P)
  returned (ok ds) = ds
  returned (err x) = []

  unfoldable pub poll_all : (C.State → C.State) → List ℕ → C.State → List (DeliveredEvent P)
  poll_all between [] s = []
  poll_all between (n ∷ ns) s =
      returned (poll C J S n s).0 ++ poll_all between ns (between (poll C J S n s).1)

  abbrev pub sum_of : List ℕ → ℕ
  sum_of [] = 0
  sum_of (n ∷ ns) = n + sum_of ns

  abbrev in_front : Option P → String → List (DeliveredEvent P) → List (DeliveredEvent P)
  in_front o d ds = elim o [ none ↦ ds | some p ↦ record { delivery_id = d; payload = p } ∷ ds ]

  in_front-append :
      (o : Option P) (d : String) (xs ys : List (DeliveredEvent P))
      → in_front o d (xs ++ ys) ≡ in_front o d xs ++ ys
  in_front-append none d xs ys = refl
  in_front-append (some p) d xs ys = refl

  state-pure :
      {A B : Type 0} (r : Result Exn A) (f : A → B) (s : C.State)
      → (continue r (λ a. pure (f a)) s).1 ≡ s
  state-pure (ok a) f s = refl
  state-pure (err x) f s = refl

  readable-append :
      (es fs : List (String × EntryFields))
      → readable C J S (es ++ fs) ≡ readable C J S es ++ readable C J S fs
  readable-append [] fs = refl
  readable-append ((d, f) ∷ es) fs =
      ap (in_front (decode C J S f) d) (readable-append es fs)
      ∙ in_front-append (decode C J S f) d (readable C J S es) (readable C J S fs)

  module _ (law : Laws.IsLawful C J) (acks : (d : String) (s : C.State) → (ack C J S d s).0 ≡ ok tt)
      (diverts : (p : P) (why : String) (s : C.State) → (dead_letter C J S p why s).0 ≡ ok tt)
      (waiting : C.State → List (String × EntryFields))
      (replayed : String → ℕ → C.State → List (String × EntryFields))
      (queue : IsQueue waiting replayed) where
    waiting-deliver :
        (es : List (String × EntryFields)) (s : C.State)
        → waiting (deliver C J S es s).1 ≡ waiting s
    unfolding deliver
    waiting-deliver [] s = refl
    waiting-deliver ((d, f) ∷ es) s = elim (Option-cases (decode C J S f)) [
      | inl e ↦
          let m = dead_letter C J S (J.raw f) "malformed_json" s in
          ap (λ o. waiting (by_decoding C J S law acks diverts o d f es s).1) e
          ∙ ap (λ z. waiting z.1) (sym (after-malformed C J S law acks diverts d f es s))
          ∙ waiting-deliver es (ack C J S d m.1).1
          ∙ ap waiting (state-ack C J S law d m.1)
          ∙ queue.acked d m.1
          ∙ ap waiting (state-dead_letter C J S law (J.raw f) "malformed_json" s)
          ∙ queue.diverted (letter C J S law (J.raw f) "malformed_json") 10000 s
      | inr e ↦
          ap (λ o. waiting (by_decoding C J S law acks diverts o d f es s).1) e.1
          ∙ ap waiting (
              state-pure (deliver C J S es s).0
                (λ ds. record { delivery_id = d; payload = e.0 } ∷ ds) (deliver C J S es s).1)
          ∙ waiting-deliver es s
    ]

    waiting-poll : (n : ℕ) (s : C.State) → waiting (poll C J S n s).1 ≡ drop n (waiting s)
    unfolding poll
    waiting-poll n s =
        let r =
          C.xreadgroup S.event_consumer_group S.consumer S.event_stream_name new_entries n s in
        let (reply, e, given, left) = queue.read new_entries n s in
        ap (λ z. waiting (poll_outcome C J S (z, r.1)).1) e
        ∙ waiting-deliver (reply_entries C J S reply) r.1
        ∙ left

    returned-poll :
        (n : ℕ) (s : C.State) → returned (poll C J S n s).0 ≡ readable C J S (take n (waiting s))
    returned-poll n s =
        let (reply, e, given, left) = queue.read new_entries n s in
        let out = poll-Delivers C J S law acks diverts n s reply e in
        ap returned out.events ∙ ap (readable C J S) given

    -- Whatever a consumer does between its polls that leaves the queue alone, and whether or not it
    -- acknowledges what it was handed, its polls return the events that were waiting, in their
    -- order and each once, and none of those that are pending: an event that was returned is never
    -- returned again, though the broker would replay it to a read of another id. The broker answers
    -- every call, and the client and the codec meet their laws.
    pub poll_all-Once :
        (between : C.State → C.State)
        → ((s : C.State) → waiting (between s) ≡ waiting s)
        → (ns : List ℕ) (s : C.State)
        → poll_all between ns s ≡ readable C J S (take (sum_of ns) (waiting s))
    unfolding poll_all
    poll_all-Once between idle [] s = refl
    poll_all-Once between idle (n ∷ ns) s =
        let t = between (poll C J S n s).1 in
        let left : waiting t ≡ drop n (waiting s) = idle (poll C J S n s).1 ∙ waiting-poll n s in
        ap (λ z. z ++ poll_all between ns t) (returned-poll n s)
        ∙ ap (λ z. readable C J S (take n (waiting s)) ++ z)
            (poll_all-Once between idle ns t ∙ ap (λ w. readable C J S (take (sum_of ns) w)) left)
        ∙ sym (readable-append (take n (waiting s)) (take (sum_of ns) (drop n (waiting s))))
        ∙ ap (readable C J S) (take-more n (sum_of ns) (waiting s))
