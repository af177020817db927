-- ===== src/Api/Sse.antt =====
-- backend/app/api/sse.py: the bounded queue between the producer task and the response, as steps
-- of the two tasks and of the watcher in any order.
pub mod Order
pub mod Hang
mod Tests
use llm_inference_logger.Prelude.{
  ℕ, ◌<◌, ◌≡◌, Bool, true, false, Option, none, some, List, [], ◌∷◌, ◌++◌, ltb, if◌then◌else◌,
  length,
}

-- `_QUEUE_SIZE`
abbrev pub queue_size : ℕ
queue_size = 64

-- The states of `stream_with_disconnect_cancellation` over a source of frames. In the queue `none`
-- is `_DONE`.
pub record Relay (F : Type 0) : Type 0 where
  -- what the source has still to give
  pub source : List F
  pub queue : List (Option F)
  -- what the response has yielded
  pub sent : List F
  pub producer_done : Bool
  pub cancelled : Bool
  -- the loop of the response has met `_DONE`
  pub closed : Bool

abbrev pub open_relay : {F : Type 0} → List F → Relay F
open_relay frames = record {
  source = frames;
  queue = [];
  sent = [];
  producer_done = false;
  cancelled = false;
  closed = false;
}

module _ {F : Type 0} where
  -- `put_nowait(_DONE)` under `suppress(QueueFull)`
  abbrev pub signal_done : List (Option F) → List (Option F)
  signal_done q = if ltb (length q) queue_size then q ++ none ∷ [] else q

  -- `await queue.put(item)`, which waits while the queue is full.
  unfoldable pub put : F → List F → Relay F → Relay F
  put x rest s = record s { source = rest; queue = s.queue ++ some x ∷ [] }

  -- The `finally` of `produce`.
  unfoldable pub finish : Relay F → Relay F
  finish s = record s { queue = signal_done s.queue; producer_done = true }

  -- The producer task is cancelled, by the watcher or by the response: its `finally` runs.
  unfoldable pub cancel : Relay F → Relay F
  cancel s = record s { queue = signal_done s.queue; producer_done = true; cancelled = true }

  -- `item = await queue.get()`, and the rest of the round.
  unfoldable pub receive : Option F → List (Option F) → Relay F → Relay F
  receive none q s = record s { queue = q; closed = true }
  receive (some x) q s = record s { queue = q; sent = s.sent ++ x ∷ [] }

  pub data Step (s : Relay F) : Relay F → Type 0 where
    put_step :
        (x : F) (rest : List F) {t : Relay F}
        → s.producer_done ≡ false
        → s.source ≡ x ∷ rest
        → length s.queue < queue_size
        → t ≡ put x rest s
        → Step s t
    finish_step : {t : Relay F} → s.producer_done ≡ false → s.source ≡ [] → t ≡ finish s → Step s t
    cancel_step : {t : Relay F} → s.producer_done ≡ false → t ≡ cancel s → Step s t
    receive_step :
        (x : Option F) (q : List (Option F)) {t : Relay F}
        → s.closed ≡ false
        → s.queue ≡ x ∷ q
        → t ≡ receive x q s
        → Step s t

  pub data Reach (s : Relay F) : Relay F → Type 0 where
    here : Reach s s
    next : {t u : Relay F} → Reach s t → Step t u → Reach s u
