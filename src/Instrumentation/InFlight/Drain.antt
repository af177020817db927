-- ===== src/Instrumentation/InFlight/Drain.antt =====
-- What the drain at shutdown leaves behind, and what it says of it.
use llm_inference_logger.Prelude.{
  ◌+◌, ◌≡◌, refl, sym, ap, ◌∙◌, subst, inl, inr, true, false, List, [], ◌∷◌, ◌++◌, map, append-nil,
  append_assoc, arith, ◌==◌, if◌then◌else◌, Bool-cases, count, All, ==_iff,
}
use mathlib.Core.List.{map-append}
use llm_inference_logger.Instrumentation.InFlight.{
  running, published, given_up, cancelled, Publish, affect, LoopStep, is_done, is_pending, gather,
  cut, take_steps, drain_pending_publishes, start, Progress, cancel_task, take_step, added,
}
use llm_inference_logger.Instrumentation.InFlight.Kept.{Kept, events-affect}

-- Every task of the list is done.
abbrev pub Settled : List Publish → Type 0
Settled ts = All (λ t. is_done t.progress ≡ true) ts

-- A task that runs is gathered.
abbrev Watched : Publish → Type 0
Watched t = is_done t.progress ≡ false → t.gathered ≡ true

gather-Watched : (t : Publish) → Kept t → Watched (gather t)
gather-Watched t k = λ h. rw (k.referenced h, h) refl

map-gather-Watched : (ts : List Publish) → All Kept ts → All Watched (map gather ts)
map-gather-Watched [] h = tt
map-gather-Watched (t ∷ ts) h = (gather-Watched t h.0, map-gather-Watched ts h.1)

done_stays :
    (s : LoopStep) (t : Publish) → is_done t.progress ≡ true → is_done (affect s t).progress ≡ true
unfolding affect
done_stays (start e) t h = h
done_stays s t h = ground arith

affect-gathered : (s : LoopStep) (t : Publish) → (affect s t).gathered ≡ t.gathered
unfolding affect
affect-gathered (start e) t = refl
affect-gathered s t = ground arith

affect-Watched : (s : LoopStep) (t : Publish) → Watched t → Watched (affect s t)
affect-Watched s t w = λ h. elim (Bool-cases (is_done t.progress)) [
  | inl e ↦ absurd (let f = done_stays s t e in ground arith)
  | inr e ↦ affect-gathered s t ∙ w e
]

-- A cut task is done where it was watched, and nothing that is cut is pending.
cancel_task-done : (p : Progress) → is_done (cancel_task p) ≡ true
cancel_task-done running = refl
cancel_task-done published = refl
cancel_task-done given_up = refl
cancel_task-done cancelled = refl

cut-done : (t : Publish) → Watched t → is_done (cut t).progress ≡ true
cut-done t w = elim (Bool-cases t.gathered) [
  | inl e ↦ rw e (cancel_task-done t.progress)
  | inr e ↦ elim (Bool-cases (is_done t.progress)) [
    | inl d ↦ rw e d
    | inr d ↦ absurd (let g = w d in ground arith)
  ]
]

cut-not_pending : (t : Publish) → is_pending (cut t) ≡ false
cut-not_pending t = elim (Bool-cases t.gathered) [
  | inl e ↦ rw (e, cancel_task-done t.progress) refl
  | inr e ↦ rw e refl
]

count-cut : (ts : List Publish) → count is_pending (map cut ts) ≡ 0
count-cut [] = refl
count-cut (t ∷ ts) = rw (cut-not_pending t) (omega (arith, count-cut ts))

cut-Settled : (ts : List Publish) → All Watched ts → Settled (map cut ts)
cut-Settled [] h = tt
cut-Settled (t ∷ ts) h = (cut-done t h.0, cut-Settled ts h.1)

cut-event : (ts : List Publish) → map (λ t. t.event) (map cut ts) ≡ map (λ t. t.event) ts
cut-event [] = refl
cut-event (t ∷ ts) = let same : (cut t).event ≡ t.event = ground arith in cc (same, cut-event ts)

gather-event : (ts : List Publish) → map (λ t. t.event) (map gather ts) ≡ map (λ t. t.event) ts
gather-event [] = refl
gather-event (t ∷ ts) = ap (◌∷◌ t.event) (gather-event ts)

map-affect-Watched :
    (s : LoopStep) (ts : List Publish) → All Watched ts → All Watched (map (affect s) ts)
map-affect-Watched s [] h = tt
map-affect-Watched s (t ∷ ts) h = (affect-Watched s t h.0, map-affect-Watched s ts h.1)

-- The tasks of a list, after steps that may start others behind them.
record After (old ts : List Publish) : Type 0 where
  then_old : List Publish
  then_new : List Publish
  split : ts ≡ then_old ++ then_new
  same_events : map (λ t. t.event) then_old ≡ map (λ t. t.event) old
  watched : All Watched then_old

take_steps-After :
    (ss : List LoopStep) (old new : List Publish)
    → All Watched old
    → After old (take_steps ss (old ++ new))
unfolding take_steps take_step
take_steps-After [] old new h = record {
  then_old = old;
  then_new = new;
  split = refl;
  same_events = refl;
  watched = h;
}
take_steps-After (s ∷ ss) old new h =
    let e : map (affect s) (old ++ new) ++ added s
        ≡ map (affect s) old ++ (map (affect s) new ++ added s) =
      rw (map-append (affect s) old new, append_assoc) refl in
    let a =
      take_steps-After ss (map (affect s) old) (map (affect s) new ++ added s)
        (map-affect-Watched s old h) in
    record {
      then_old = a.then_old;
      then_new = a.then_new;
      split = ap (take_steps ss) e ∙ a.split;
      same_events = a.same_events ∙ events-affect s old;
      watched = a.watched;
    }

none_pending-Settled :
    (ts : List Publish) → All Kept ts → count is_pending (map gather ts) ≡ 0 → Settled ts
none_pending-Settled [] h e = tt
none_pending-Settled (t ∷ ts) h e = elim (Bool-cases (is_done t.progress)) [
  | inl d ↦ (d, none_pending-Settled ts h.1 (omega (arith, e)))
  | inr d ↦
      let held = h.0.referenced d in
      let pending : is_pending (gather t) ≡ true = rw (held, d) refl in
      let e' = subst (λ b. (if b then 1 else 0) + count is_pending (map gather ts) ≡ 0) pending e in
      absurd (omega (arith, e'))
]

-- A drain at shutdown answers 0, whatever the loop does in its grace period, and the publishes that
-- were started before it are all done when it returns: taken by the bus, given up by it, or, where
-- the period was too short, cancelled.
pub drain_pending_publishes-Settled :
    (grace : List LoopStep) (ts : List Publish)
    → All Kept ts
    → ((drain_pending_publishes grace ts).0 ≡ 0)
      × ((old : List Publish) × (new : List Publish) × ((drain_pending_publishes grace ts).1
            ≡ old ++ new)
          × (map (λ t. t.event) old ≡ map (λ t. t.event) ts)
          × Settled old)
unfolding drain_pending_publishes
drain_pending_publishes-Settled grace ts h =
    elim (Bool-cases (count is_pending (map gather ts) == 0)) [
      | inl e ↦
          rw e (
            refl,
            (ts, [], sym (append-nil ts), refl, none_pending-Settled ts h ((==_iff _ 0).0 e)),
          )
      | inr e ↦
          let a = take_steps-After grace (map gather ts) [] (map-gather-Watched ts h) in
          rw e (
            count-cut _,
            (
              map cut a.then_old,
              map cut a.then_new,
              ap (λ xs. map cut (take_steps grace xs)) (sym (append-nil _))
                  ∙ ap (map cut) a.split
                  ∙ map-append cut a.then_old a.then_new,
              cut-event a.then_old ∙ a.same_events ∙ gather-event ts,
              cut-Settled a.then_old a.watched,
            ),
          )
    ]
