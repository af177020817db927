-- ===== src/Instrumentation/InFlight.antt =====
-- backend/app/instrumentation/wrapper.py: `_publish_resiliently`, `_INFLIGHT` and
-- `drain_pending_publishes`, over the steps that the event loop takes.
pub mod Kept
pub mod Drain
mod Tests
use llm_inference_logger.Prelude.{
  ℕ, Bool, true, false, not, ◌&&◌, List, [], ◌∷◌, ◌++◌, map, ◌==◌, if◌then◌else◌, count,
}

-- How far the task of a publish is: the bus takes the event or gives it up, or the task is
-- cancelled. A publish does not catch its cancellation.
pub data Progress : Type 0 where
  running published given_up cancelled : Progress

-- The coroutine that awaits the task behind a shield.
pub data Caller : Type 0 where
  waiting returned interrupted : Caller

-- One call of `_publish_resiliently`. `in_flight` is membership of `_INFLIGHT`, and `gathered`
-- that a drain waits for the task.
pub record Publish : Type 0 where
  pub event : ℕ
  pub progress : Progress
  pub in_flight : Bool
  pub caller : Caller
  pub gathered : Bool

-- `task.done()`
abbrev pub is_done : Progress → Bool
is_done running = false
is_done published = true
is_done given_up = true
is_done cancelled = true

-- What the loop does next: a call starts its task; a task ends, with what the bus answered; the
-- done callback of a task runs; a caller is cancelled, or goes on after its task.
pub data LoopStep : Type 0 where
  start : ℕ → LoopStep
  end : ℕ → Bool → LoopStep
  discard : ℕ → LoopStep
  cancel : ℕ → LoopStep
  resume : ℕ → LoopStep

-- `create_task`, `_INFLIGHT.add`, `add_done_callback`, up to the await.
abbrev pub begin : ℕ → Publish
begin e = record {
  event = e;
  progress = running;
  in_flight = true;
  caller = waiting;
  gathered = false;
}

abbrev pub end_of : Bool → Progress → Progress
end_of taken running = if taken then published else given_up
end_of taken p = p

-- A cancellation ends the await of the shield. It does not reach the task.
abbrev pub cancel_caller : Caller → Caller
cancel_caller waiting = interrupted
cancel_caller c = c

abbrev pub resume_caller : Progress → Caller → Caller
resume_caller p waiting = if is_done p then returned else waiting
resume_caller p c = c

-- What a step does to one task.
unfoldable pub affect : LoopStep → Publish → Publish
affect (start e) t = t
affect (end e taken) t = if t.event == e then record t { progress = end_of taken t.progress } else t
affect (discard e) t =
    if t.event == e && is_done t.progress then record t { in_flight = false } else t
affect (cancel e) t = if t.event == e then record t { caller = cancel_caller t.caller } else t
affect (resume e) t =
    if t.event == e then record t { caller = resume_caller t.progress t.caller } else t

abbrev pub added : LoopStep → List Publish
added (start e) = begin e ∷ []
added (end _ _) = []
added (discard _) = []
added (cancel _) = []
added (resume _) = []

unfoldable pub take_step : LoopStep → List Publish → List Publish
unfolding affect
take_step s ts = map (affect s) ts ++ added s

unfoldable pub take_steps : List LoopStep → List Publish → List Publish
unfolding take_step
take_steps [] ts = ts
take_steps (s ∷ ss) ts = take_steps ss (take_step s ts)

abbrev pub gather : Publish → Publish
gather t = record t { gathered = t.in_flight && not (is_done t.progress) }

-- A timeout cancels the await of `asyncio.gather`, which cancels what it gathered and still runs,
-- and waits for that.
abbrev pub cancel_task : Progress → Progress
cancel_task running = cancelled
cancel_task p = p

abbrev pub cut : Publish → Publish
cut t = if t.gathered then record t { progress = cancel_task t.progress } else t

abbrev pub is_pending : Publish → Bool
is_pending t = t.gathered && not (is_done t.progress)

-- `drain_pending_publishes`: the steps are those of the grace period, which ends with the last
-- task that was gathered or with the timeout.
unfoldable pub drain_pending_publishes : List LoopStep → List Publish → ℕ × List Publish
unfolding take_steps
drain_pending_publishes grace ts =
    let pending = map gather ts in
    let ended = map cut (take_steps grace pending) in
    if count is_pending pending == 0 then (0, ts) else (count is_pending ended, ended)
