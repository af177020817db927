-- ===== src/Api/Sse/Order.antt =====
-- The queue stays within its bound, and the response is a prefix of the source, in order.
use llm_inference_logger.Prelude.{
  ◌≤◌, ◌≡◌, refl, sym, ap, ◌∙◌, subst, inl, inr, Bool, true, false, Option, none, some, List, [],
  ◌∷◌, ◌++◌, append-nil, append_assoc, arith, ltb, Bool-cases, length, length-append,
}
use llm_inference_logger.Api.Sse.{
  here, next, Reach, open_relay, receive, queue_size, Relay, signal_done, Step, put_step, put,
  finish_step, finish, cancel_step, cancel, receive_step, Reach, open_relay, receive, next,
}

module _ {F : Type 0} where
  -- The frames that wait in a queue.
  abbrev pub waiting : List (Option F) → List F
  waiting [] = []
  waiting (none ∷ q) = waiting q
  waiting (some x ∷ q) = x ∷ waiting q

  -- `_DONE` stands nowhere but at the end.
  abbrev pub DoneLast : List (Option F) → Type 0
  DoneLast [] = Unit
  DoneLast (none ∷ q) = q ≡ []
  DoneLast (some x ∷ q) = DoneLast q

  abbrev has_done : List (Option F) → Bool
  has_done [] = false
  has_done (none ∷ q) = true
  has_done (some x ∷ q) = has_done q

  waiting-put :
      (q : List (Option F)) (x : F)
      → has_done q ≡ false
      → waiting (q ++ some x ∷ []) ≡ waiting q ++ x ∷ []
  waiting-put [] x h = refl
  waiting-put (none ∷ q) x h = cc
  waiting-put (some y ∷ q) x h = ap (◌∷◌ y) (waiting-put q x h)

  waiting-done : (q : List (Option F)) → waiting (q ++ none ∷ []) ≡ waiting q
  waiting-done [] = refl
  waiting-done (none ∷ q) = waiting-done q
  waiting-done (some y ∷ q) = ap (◌∷◌ y) (waiting-done q)

  has_done-put : (q : List (Option F)) (x : F) → has_done (q ++ some x ∷ []) ≡ has_done q
  has_done-put [] x = refl
  has_done-put (none ∷ q) x = refl
  has_done-put (some y ∷ q) x = has_done-put q x

  DoneLast-put : (q : List (Option F)) (x : F) → has_done q ≡ false → DoneLast (q ++ some x ∷ [])
  DoneLast-put [] x h = tt
  DoneLast-put (none ∷ q) x h = cc
  DoneLast-put (some y ∷ q) x h = DoneLast-put q x h

  DoneLast-done : (q : List (Option F)) → has_done q ≡ false → DoneLast (q ++ none ∷ [])
  DoneLast-done [] h = refl
  DoneLast-done (none ∷ q) h = cc
  DoneLast-done (some y ∷ q) h = DoneLast-done q h

  -- What holds in every state that a run over `frames` reaches.
  pub record IsSound (frames : List F) (s : Relay F) : Type 0 where
    -- no more waits than the queue has room for
    pub bounded : length s.queue ≤ queue_size
    -- sent, waiting and still to come are the frames of the source, in order
    pub in_order : s.sent ++ (waiting s.queue ++ s.source) ≡ frames
    pub done_last : DoneLast s.queue
    -- `_DONE` is queued by a producer that has ended, and the response ends by it alone
    pub by_producer : s.producer_done ≡ false → (has_done s.queue ≡ false) × (s.closed ≡ false)
    pub after_close : s.closed ≡ true → (s.producer_done ≡ true) × (s.queue ≡ [])
    -- a producer that was not cancelled ends with its source
    pub exhausted : s.producer_done ≡ true → s.cancelled ≡ false → s.source ≡ []

  signal_done-bounded :
      (q : List (Option F)) → length q ≤ queue_size → length (signal_done q) ≤ queue_size
  signal_done-bounded q h = ground (arith, length-append q (none ∷ []))

  signal_done-waiting : (q : List (Option F)) → waiting (signal_done q) ≡ waiting q
  signal_done-waiting q = ground (arith, waiting-done q)

  signal_done-DoneLast :
      (q : List (Option F)) → has_done q ≡ false → DoneLast q → DoneLast (signal_done q)
  signal_done-DoneLast q h d = elim (Bool-cases (ltb (length q) queue_size)) [
    | inl room ↦ rw room (DoneLast-done q h)
    | inr full ↦ rw full d
  ]

  Step-IsSound : {s t : Relay F} (frames : List F) → Step s t → IsSound frames s → IsSound frames t
  Step-IsSound {s} {t} frames (put_step x rest runs given room e) h = rw e (
      unfold put in
      record {
        bounded = omega (arith, length-append s.queue (some x ∷ []));
        in_order = rw (waiting-put s.queue x (h.by_producer runs).0) (
            ap (◌++◌ s.sent) (append_assoc (waiting s.queue) (x ∷ []) rest)
            ∙ rw (← given) h.in_order);
        done_last = DoneLast-put s.queue x (h.by_producer runs).0;
        by_producer =
            λ r. (has_done-put s.queue x ∙ (h.by_producer runs).0, (h.by_producer runs).1);
        after_close = λ c. cc (h.by_producer runs).1;
        exhausted = λ d. cc;
      })
  Step-IsSound {s} {t} frames (finish_step runs empty e) h = rw e (
      unfold finish in
      record {
        bounded = signal_done-bounded s.queue h.bounded;
        in_order = rw (signal_done-waiting s.queue) h.in_order;
        done_last = signal_done-DoneLast s.queue (h.by_producer runs).0 h.done_last;
        by_producer = λ r. cc;
        after_close = λ c. cc (h.by_producer runs).1;
        exhausted = λ _ _. empty;
      })
  Step-IsSound {s} {t} frames (cancel_step runs e) h = rw e (
      unfold cancel in
      record {
        bounded = signal_done-bounded s.queue h.bounded;
        in_order = rw (signal_done-waiting s.queue) h.in_order;
        done_last = signal_done-DoneLast s.queue (h.by_producer runs).0 h.done_last;
        by_producer = λ r. cc;
        after_close = λ c. cc (h.by_producer runs).1;
        exhausted = λ _ r. cc;
      })
  Step-IsSound {s} {t} frames (receive_step none q opened shows e) h = rw e (
      unfold receive in
      record {
        bounded = omega (arith, subst (λ z. length z ≤ queue_size) shows h.bounded);
        in_order = subst (λ z. s.sent ++ (waiting z ++ s.source) ≡ frames) shows h.in_order;
        done_last = rw (subst DoneLast shows h.done_last) tt;
        by_producer = λ r. cc (subst (λ z. has_done z ≡ false) shows (h.by_producer r).0);
        after_close = λ _. (
          elim (Bool-cases s.producer_done) [
            | inl d ↦ d
            | inr r ↦ cc (subst (λ z. has_done z ≡ false) shows (h.by_producer r).0)
          ],
          subst DoneLast shows h.done_last,
        );
        exhausted = h.exhausted;
      })
  Step-IsSound {s} {t} frames (receive_step (some x) q opened shows e) h = rw e (
      unfold receive in
      record {
        bounded = omega (arith, subst (λ z. length z ≤ queue_size) shows h.bounded);
        in_order =
            append_assoc s.sent (x ∷ []) (waiting q ++ s.source)
            ∙ subst (λ z. s.sent ++ (waiting z ++ s.source) ≡ frames) shows h.in_order;
        done_last = subst DoneLast shows h.done_last;
        by_producer = λ r. (subst (λ z. has_done z ≡ false) shows (h.by_producer r).0, opened);
        after_close = λ c. cc;
        exhausted = h.exhausted;
      })

  open-IsSound : (frames : List F) → IsSound frames (open_relay frames)
  open-IsSound frames = record {
    bounded = omega arith;
    in_order = refl;
    done_last = tt;
    by_producer = λ _. (refl, refl);
    after_close = λ c. cc;
    exhausted = λ d. cc;
  }

  -- Whatever order the two tasks and the watcher run in, the queue keeps its bound, no frame is
  -- lost, doubled or reordered, `_DONE` comes last and from a producer that has ended, and a
  -- response whose loop has met `_DONE` has left nothing in the queue.
  pub Reach-IsSound :
      {frames : List F} {s : Relay F} → Reach (open_relay frames) s → IsSound frames s
  Reach-IsSound {frames} here = open-IsSound frames
  Reach-IsSound {frames} (next r st) = Step-IsSound frames st (Reach-IsSound r)

  -- A response that ends although nothing cancelled the producer has yielded the whole source.
  closed_complete :
      {frames : List F} {s : Relay F}
      → Reach (open_relay frames) s
      → s.closed ≡ true
      → s.cancelled ≡ false
      → s.sent ≡ frames
  closed_complete {frames} {s} r c u =
      let h = Reach-IsSound r in
      let ended = h.after_close c in
      sym (append-nil s.sent)
      ∙ subst (λ z. s.sent ++ z ≡ frames) (h.exhausted ended.0 u)
          (subst (λ z. s.sent ++ (waiting z ++ s.source) ≡ frames) ended.1 h.in_order)
