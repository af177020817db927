-- ===== src/Api/Sse/Tests.antt =====
-- A source of three frames, one of exactly as many as the queue holds, and the theorems on them.
use llm_inference_logger.Prelude.{ℕ, zero, suc, refl, true, false, none, some, List, [], ◌∷◌, arith}
use llm_inference_logger.Api.Sse.{
  Relay, here, next, Reach, open_relay, receive, put_step, put, finish_step, finish, receive_step,
}
use llm_inference_logger.Api.Sse.Order.{IsSound, Reach-IsSound}
use llm_inference_logger.Api.Sse.Hang.{Hangs, full_queue-Hangs}

-- A run that interleaves the two tasks: both frames, and the response two rounds behind.
abbrev ended : Relay ℕ
ended = record {
  source = [];
  queue = [];
  sent = 7 ∷ 8 ∷ [];
  producer_done = true;
  cancelled = false;
  closed = true;
}

two_frames : Reach (open_relay (7 ∷ 8 ∷ [])) ended
unfolding put finish receive
two_frames =
    next
      (next
        (next
          (next
            (next (next here (put_step 7 (8 ∷ []) refl refl (omega arith) refl))
              (receive_step (some 7) [] refl refl refl))
            (put_step 8 [] refl refl (omega arith) refl))
          (finish_step refl refl refl))
        (receive_step (some 8) (none ∷ []) refl refl refl))
      (receive_step none [] refl refl refl)

Reach-IsSound_example : IsSound (7 ∷ 8 ∷ []) ended
Reach-IsSound_example = Reach-IsSound two_frames

-- The numbers from `n` down to 1.
abbrev countdown : ℕ → List ℕ
countdown zero = []
countdown (suc n) = suc n ∷ countdown n

full_queue-Hangs_example : (s : Relay ℕ) × Hangs (100 ∷ countdown 64) s
full_queue-Hangs_example = full_queue-Hangs (100 ∷ []) (countdown 64) refl
