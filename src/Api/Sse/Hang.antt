-- ===== src/Api/Sse/Hang.antt =====
-- backend/app/api/sse.py: what becomes of `_DONE` when the queue is full.
use llm_inference_logger.Prelude.{
  suc, ◌+◌, ◌≤◌, ◌≡◌, refl, ap, subst, Bool, true, false, Option, some, List, [], ◌∷◌, ◌++◌, map,
  append-nil, append_assoc, arith, length, length-append,
}
use llm_inference_logger.Api.Sse.{
  Relay, here, next, Reach, open_relay, receive, put_step, put, finish_step, finish, receive_step,
  queue_size, Step, signal_done, cancel_step,
}

module _ {F : Type 0} where
  abbrev at : List F → List (Option F) → List F → Bool → Relay F
  at rest q out d = record {
    source = rest;
    queue = q;
    sent = out;
    producer_done = d;
    cancelled = false;
    closed = false;
  }

  some_put : (fs : List F) (x : F) → map some (fs ++ x ∷ []) ≡ map some fs ++ some x ∷ []
  some_put [] x = refl
  some_put (y ∷ fs) x = ap (◌∷◌ (some y)) (some_put fs x)

  length-some : (fs : List F) → length (map some fs) ≡ length fs
  length-some [] = refl
  length-some (x ∷ fs) = ap suc (length-some fs)

  module _ {s0 : Relay F} where
    -- Frames that the response takes one by one.
    forward :
        (early late out : List F)
        → Reach s0 (at (early ++ late) [] out false)
        → Reach s0 (at late [] (out ++ early) false)
    unfolding put receive
    forward [] late out r = rw (append-nil out) r
    forward (x ∷ early) late out r =
        subst (λ z. Reach s0 (at late [] z false)) (append_assoc out (x ∷ []) early)
          (forward early late (out ++ x ∷ []) (
            next (next r (put_step x (early ++ late) refl refl (omega arith) refl))
              (receive_step (some x) [] refl refl refl)))

    -- Frames that wait in the queue.
    fill :
        (q rest out : List F)
        → length q + length rest ≤ queue_size
        → Reach s0 (at rest (map some q) out false)
        → Reach s0 (at [] (map some (q ++ rest)) out false)
    unfolding put
    fill q [] out room r = rw (append-nil q) r
    fill q (x ∷ rest) out room r =
        subst (λ z. Reach s0 (at [] (map some z) out false)) (append_assoc q (x ∷ []) rest)
          (fill (q ++ x ∷ []) rest out (omega (arith, length-append q (x ∷ []))) (
            next r
              (put_step x rest refl refl (omega (arith, length-some q)) (rw (some_put q x) refl))))

    -- The response empties a queue that holds frames only.
    drain :
        (q out : List F)
        → Reach s0 (at [] (map some q) out true)
        → Reach s0 (at [] [] (out ++ q) true)
    unfolding receive
    drain [] out r = rw (append-nil out) r
    drain (x ∷ q) out r =
        subst (λ z. Reach s0 (at [] [] z true)) (append_assoc out (x ∷ []) q)
          (drain q (out ++ x ∷ []) (next r (receive_step (some x) (map some q) refl refl refl)))

  no-Step : (out : List F) (t : Relay F) → ¬ Step (at [] [] out true) t
  no-Step out t (put_step x rest runs g r e) = cc
  no-Step out t (finish_step runs g e) = cc
  no-Step out t (cancel_step runs e) = cc
  no-Step out t (receive_step x q o shows e) = cc

  queue_full :
      (late : List F) → length late ≡ queue_size → signal_done (map some late) ≡ map some late
  queue_full late full = ground (arith, length-some late)

  -- A run over `frames` whose response has yielded every frame, whose producer has ended, and whose
  -- loop waits for an item that no step will bring.
  abbrev pub Hangs : List F → Relay F → Type 0
  Hangs frames s =
      Reach (open_relay frames) s
      × (s.sent ≡ frames)
      × (s.producer_done ≡ true)
      × (s.closed ≡ false)
      × ((t : Relay F) → ¬ Step s t)

  -- Every source of at least 64 frames has a run in which the response yields the whole source, the
  -- producer has ended, and then no step of any task is possible though the loop is still open.
  pub full_queue-Hangs :
      (early late : List F) → length late ≡ queue_size → (s : Relay F) × Hangs (early ++ late) s
  unfolding finish
  full_queue-Hangs early late full = (
    at [] [] (early ++ late) true,
    (
      drain late early (
          next (fill [] late early (omega arith) (forward early late [] here))
            (finish_step refl refl (rw (queue_full late full) refl))),
      refl,
      refl,
      refl,
      no-Step (early ++ late),
    ),
  )
