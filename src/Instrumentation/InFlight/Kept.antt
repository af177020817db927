-- ===== src/Instrumentation/InFlight/Kept.antt =====
-- A publish outlives the caller that started it, however often that caller is cancelled.
use llm_inference_logger.Prelude.{
  ℕ, ◌≡◌, refl, sym, ap, ◌∙◌, ◌≢◌, inl, inr, Bool, true, false, ◌&&◌, List, [], ◌∷◌, ◌++◌, map,
  append-nil, append_assoc, arith, ◌==◌, if◌then◌else◌, Bool-cases, All, All-append,
}
use mathlib.Core.List.{map-append}
use llm_inference_logger.Instrumentation.InFlight.{
  running, published, given_up, waiting, interrupted, Publish, begin, LoopStep, affect, Progress,
  start, is_done, end, cancelled, returned, discard, cancel, resume, Caller, added, take_steps,
  end_of, resume_caller, take_step, cancel_caller,
}

-- The events whose calls a run of steps starts.
abbrev pub starts : List LoopStep → List ℕ
starts [] = []
starts (start e ∷ ss) = e ∷ starts ss
starts (end _ _ ∷ ss) = starts ss
starts (discard _ ∷ ss) = starts ss
starts (cancel _ ∷ ss) = starts ss
starts (resume _ ∷ ss) = starts ss

-- The run without its cancellations.
abbrev pub undisturbed : List LoopStep → List LoopStep
undisturbed [] = []
undisturbed (start e ∷ ss) = start e ∷ undisturbed ss
undisturbed (end e b ∷ ss) = end e b ∷ undisturbed ss
undisturbed (discard e ∷ ss) = discard e ∷ undisturbed ss
undisturbed (cancel _ ∷ ss) = undisturbed ss
undisturbed (resume e ∷ ss) = resume e ∷ undisturbed ss

-- A task that runs is referenced, none is cancelled, and a caller that went on had its task done.
pub record Kept (t : Publish) : Type 0 where
  pub referenced : is_done t.progress ≡ false → t.in_flight ≡ true
  pub not_cancelled : t.progress ≢ cancelled
  pub after_it : t.caller ≡ returned → is_done t.progress ≡ true

-- What becomes of an event.
abbrev pub Fate : Type 0
Fate = ℕ × Progress × Bool

abbrev pub fate : Publish → Fate
fate t = (t.event, t.progress, t.in_flight)

begin-Kept : (e : ℕ) → Kept (begin e)
begin-Kept e = record {
  referenced = λ h. refl;
  not_cancelled = λ h. ground arith;
  after_it = λ h. ground arith;
}

Kept-if : (b : Bool) (x y : Publish) → Kept x → Kept y → Kept (if b then x else y)
Kept-if true x y h k = h
Kept-if false x y h k = k

-- The three facts, of the fields of a task.
abbrev Facts : Progress → Bool → Caller → Type 0
Facts p f c = (is_done p ≡ false → f ≡ true) × (p ≢ cancelled) × (c ≡ returned → is_done p ≡ true)

end-Facts : (b : Bool) (p : Progress) (f : Bool) (c : Caller) → Facts p f c → Facts (end_of b p) f c
end-Facts true running f c (r, n, a) = (λ h. ground arith, λ h. ground arith, λ h. refl)
end-Facts false running f c (r, n, a) = (λ h. ground arith, λ h. ground arith, λ h. refl)
end-Facts b published f c h = h
end-Facts b given_up f c h = h
end-Facts b cancelled f c (r, n, a) = absurd (n refl)

cancel-Facts : (p : Progress) (f : Bool) (c : Caller) → Facts p f c → Facts p f (cancel_caller c)
cancel-Facts p f waiting (r, n, a) = (r, n, λ h. ground arith)
cancel-Facts p f returned h = h
cancel-Facts p f interrupted h = h

resume-Facts : (p : Progress) (f : Bool) (c : Caller) → Facts p f c → Facts p f (resume_caller p c)
resume-Facts p f waiting (r, n, a) = elim (Bool-cases (is_done p)) [
  | inl e ↦ (r, n, λ h. e)
  | inr e ↦ (r, n, λ h. ground arith)
]
resume-Facts p f returned h = h
resume-Facts p f interrupted h = h

facts : (t : Publish) → Kept t → Facts t.progress t.in_flight t.caller
facts t k = (k.referenced, k.not_cancelled, k.after_it)

Facts-Kept : (t : Publish) → Facts t.progress t.in_flight t.caller → Kept t
Facts-Kept t (r, n, a) = record { referenced = r; not_cancelled = n; after_it = a }

pub affect-Kept : (s : LoopStep) (t : Publish) → Kept t → Kept (affect s t)
unfolding affect
affect-Kept (start e) t k = k
affect-Kept (end e b) t k =
    Kept-if (t.event == e) _ t (Facts-Kept _ (end-Facts b _ _ _ (facts t k))) k
affect-Kept (discard e) t k = elim (Bool-cases (t.event == e && is_done t.progress)) [
  | inr e' ↦ rw e' k
  | inl e' ↦
      let done : is_done t.progress ≡ true = ground arith in
      rw e' (Facts-Kept _ (λ h. ground arith, k.not_cancelled, k.after_it))
]
affect-Kept (cancel e) t k =
    Kept-if (t.event == e) _ t (Facts-Kept _ (cancel-Facts _ _ _ (facts t k))) k
affect-Kept (resume e) t k =
    Kept-if (t.event == e) _ t (Facts-Kept _ (resume-Facts _ _ _ (facts t k))) k

added-Kept : (s : LoopStep) → All Kept (added s)
added-Kept (start e) = (begin-Kept e, tt)
added-Kept _ = tt

map-Kept : (s : LoopStep) (ts : List Publish) → All Kept ts → All Kept (map (affect s) ts)
map-Kept s [] h = tt
map-Kept s (t ∷ ts) h = (affect-Kept s t h.0, map-Kept s ts h.1)

pub take_steps-Kept :
    (ss : List LoopStep) (ts : List Publish) → All Kept ts → All Kept (take_steps ss ts)
unfolding take_steps take_step
take_steps-Kept [] ts h = h
take_steps-Kept (s ∷ ss) ts h =
    take_steps-Kept ss _
      (All-append Kept (map (affect s) ts) (added s) (map-Kept s ts h) (added-Kept s))

affect-event : (s : LoopStep) (t : Publish) → (affect s t).event ≡ t.event
unfolding affect
affect-event (start e) t = refl
affect-event _ t = ground arith

pub events-affect :
    (s : LoopStep) (ts : List Publish)
    → map (λ t. t.event) (map (affect s) ts) ≡ map (λ t. t.event) ts
events-affect s [] = refl
events-affect s (t ∷ ts) = cc (affect-event s t, events-affect s ts)

starts-added :
    (s : LoopStep) (ss : List LoopStep)
    → map (λ t. t.event) (added s) ++ starts ss ≡ starts (s ∷ ss)
starts-added (start e) ss = refl
starts-added (end e b) ss = refl
starts-added (discard e) ss = refl
starts-added (cancel e) ss = refl
starts-added (resume e) ss = refl

take_steps-starts :
    (ss : List LoopStep) (ts : List Publish)
    → map (λ t. t.event) (take_steps ss ts) ≡ map (λ t. t.event) ts ++ starts ss
unfolding take_steps take_step
take_steps-starts [] ts = sym (append-nil _)
take_steps-starts (s ∷ ss) ts =
    take_steps-starts ss (take_step s ts)
    ∙ (rw
        (map-append (λ t. t.event) (map (affect s) ts) (added s), events-affect s ts, append_assoc)
        (ap (λ xs. map (λ t. t.event) ts ++ xs) (starts-added s ss)))

-- A step moves the fates by the fates alone, and a cancellation does not move them.
affect-fate :
    (s : LoopStep) (t u : Publish) → fate t ≡ fate u → fate (affect s t) ≡ fate (affect s u)
unfolding affect
affect-fate s t u h = ground arith

fates-affect :
    (s : LoopStep) (ts us : List Publish)
    → map fate ts ≡ map fate us
    → map fate (map (affect s) ts) ≡ map fate (map (affect s) us)
fates-affect s [] [] h = refl
fates-affect s [] (u ∷ us) h = absurd (ground arith)
fates-affect s (t ∷ ts) [] h = absurd (ground arith)
fates-affect s (t ∷ ts) (u ∷ us) h =
    let head : fate t ≡ fate u = cc h in
    let tail : map fate ts ≡ map fate us = cc h in
    cc (affect-fate s t u head, fates-affect s ts us tail)

fates-step :
    (s : LoopStep) (ts us : List Publish)
    → map fate ts ≡ map fate us
    → map fate (take_step s ts) ≡ map fate (take_step s us)
unfolding take_step
fates-step s ts us h =
    map-append fate (map (affect s) ts) (added s)
    ∙ ap (λ xs. xs ++ map fate (added s)) (fates-affect s ts us h)
    ∙ sym (map-append fate (map (affect s) us) (added s))

fates-cancel : (e : ℕ) (ts : List Publish) → map fate (take_step (cancel e) ts) ≡ map fate ts
unfolding take_step affect
fates-cancel e [] = refl
fates-cancel e (t ∷ ts) =
    let same : fate (affect (cancel e) t) ≡ fate t = ground arith in cc (same, fates-cancel e ts)

fates-undisturbed :
    (ss : List LoopStep) (ts us : List Publish)
    → map fate ts ≡ map fate us
    → map fate (take_steps ss ts) ≡ map fate (take_steps (undisturbed ss) us)
unfolding take_steps
fates-undisturbed [] ts us h = h
fates-undisturbed (cancel e ∷ ss) ts us h = fates-undisturbed ss _ us (fates-cancel e ts ∙ h)
fates-undisturbed (start e ∷ ss) ts us h = fates-undisturbed ss _ _ (fates-step (start e) ts us h)
fates-undisturbed (end e b ∷ ss) ts us h = fates-undisturbed ss _ _ (fates-step (end e b) ts us h)
fates-undisturbed (discard e ∷ ss) ts us h =
    fates-undisturbed ss _ _ (fates-step (discard e) ts us h)
fates-undisturbed (resume e ∷ ss) ts us h = fates-undisturbed ss _ _ (fates-step (resume e) ts us h)

-- However the loop interleaves calls, ends of tasks, their callbacks and cancellations of callers:
-- there is one task for each call, in their order; a task that runs is in `_INFLIGHT`, none is
-- cancelled, and a caller that went on without a cancellation has its task done. What becomes of
-- every event is what becomes of it in the run without the cancellations.
pub take_steps-undisturbed :
    (ss : List LoopStep)
    → (map (λ t. t.event) (take_steps ss []) ≡ starts ss)
      × All Kept (take_steps ss [])
      × (map fate (take_steps ss []) ≡ map fate (take_steps (undisturbed ss) []))
take_steps-undisturbed ss =
    (take_steps-starts ss [], take_steps-Kept ss [] tt, fates-undisturbed ss [] [] refl)
