-- ===== src/Toasts/Draining.antt =====
-- The timers of the notices run out.
use pikoci.Base.{
  String, ℕ, zero, suc, ◌+◌, ◌≤◌, ◌<◌, ◌-◌, true, none, some, List, [], ◌∷◌, ◌++◌, ◌≡◌, refl, arith,
  length, contains, ◌==◌, ==_refl, number_equality, text_equality, Bool-cases, Option, inl, inr,
  All, All-append,
}
use pikoci.Toasts.{
  Toasts, Toast, Task, Timer, dismissing, removing, show_toast, dismiss_toast, remove_toast, reveal,
  do_task, draw_frame, take_due, fire_task, Event, shown, closed, framed, waited, fired, mounted,
  unmounted, step, run, loaded, toast_ids, duration,
}
use pikoci.Toasts.Leaving.{
  timer_ids, IsTaken, take_due-IsTaken, weight, work, Takes-All, IsAttended, run-IsAttended,
  none_seen, either_state,
}

-- A timer fires within the longest duration.
abbrev pub IsSoon : ℕ → Timer → Type 0
IsSoon now t = t.due ≤ now + 8000

abbrev pub IsBounded : Toasts → Type 0
IsBounded s = All (IsSoon s.now) s.timers

IsSoon-later : (now n : ℕ) (ts : List Timer) → All (IsSoon now) ts → All (IsSoon (now + n)) ts
IsSoon-later now n [] h = tt
IsSoon-later now n (t ∷ ts) h = (omega (arith, h.0), IsSoon-later now n ts h.1)

duration_le : (kind : String) → duration kind ≤ 8000
unfolding duration
duration_le kind = elim (Bool-cases (kind == "error")) [
  | inl e ↦ rw e (omega arith)
  | inr e ↦ rw e (omega arith)
]

show_toast-IsBounded :
    (msg kind : String) (s : Toasts) → IsBounded s → IsBounded (show_toast msg kind s)
unfolding show_toast
show_toast-IsBounded msg kind s h =
    either_state IsBounded s.registered _ s
      (λ e. All-append (IsSoon s.now) s.timers _ h (omega (arith, duration_le kind), tt)) (λ e. h)

do_task-IsBounded : (task : Task) (s : Toasts) → IsBounded s → IsBounded (do_task task s)
unfolding do_task dismiss_toast remove_toast
do_task-IsBounded (dismissing id) s h =
    either_state IsBounded s.registered _ s
      (λ e. All-append (IsSoon s.now) s.timers _ h (omega arith, tt)) (λ e. h)
do_task-IsBounded (removing id) s h = either_state IsBounded s.registered _ s (λ e. h) (λ e. h)

fire_task-IsBounded :
    (s : Toasts) (o : Option (Task × List Timer))
    → IsTaken s.now s.timers o
    → IsBounded s
    → IsBounded (fire_task o s)
unfolding fire_task
fire_task-IsBounded s none k h = h
fire_task-IsBounded s (some (task, rest)) k h =
    do_task-IsBounded task (record s { timers = rest })
      (Takes-All (IsSoon s.now) s.now s.timers task rest k h)

draw_frame-IsBounded : (ids : List ℕ) (s : Toasts) → IsBounded s → IsBounded (draw_frame ids s)
unfolding draw_frame reveal
draw_frame-IsBounded [] s h = h
draw_frame-IsBounded (id ∷ ids) s h = either_state IsBounded s.registered _ _ (λ e. h) (λ e. h)

step-IsBounded : (e : Event) (s : Toasts) → IsBounded s → IsBounded (step e s)
unfolding step do_task
step-IsBounded (shown msg kind) s h = show_toast-IsBounded msg kind s h
step-IsBounded (closed id) s h = do_task-IsBounded (dismissing id) s h
step-IsBounded framed s h = draw_frame-IsBounded s.frames s h
step-IsBounded (waited n) s h = IsSoon-later s.now n s.timers h
step-IsBounded (fired k) s h =
    fire_task-IsBounded s (take_due s.now k s.timers) (take_due-IsTaken s.now k s.timers) h
step-IsBounded mounted s h = h
step-IsBounded unmounted s h = h

run-IsBounded : (events : List Event) (s : Toasts) → IsBounded s → IsBounded (run events s)
unfolding run
run-IsBounded [] s h = h
run-IsBounded (e ∷ events) s h = run-IsBounded events (step e s) (step-IsBounded e s h)

-- The browser waits, then fires the first timer, and so on.
abbrev pub waits : ℕ → List Event
waits zero = []
waits (suc n) = waited 8000 ∷ fired 0 ∷ waits n

work_last :
    (ts : List Timer) (due id : ℕ)
    → work (ts ++ (record { due = due; task = removing id }) ∷ []) < 2 + work ts
unfolding work weight
work_last [] due id = omega arith
work_last (t ∷ ts) due id = omega (arith, work_last ts due id)

-- A callback makes less work than it is.
do_task-work :
    (task : Task) (s : Toasts) → work (do_task task s).timers < weight task + work s.timers
unfolding do_task dismiss_toast remove_toast weight
do_task-work (dismissing id) s =
    either_state (λ r. work r.timers < 2 + work s.timers) s.registered _ s
      (λ e. work_last s.timers (s.now + 300) id) (λ e. omega arith)
do_task-work (removing id) s =
    either_state (λ r. work r.timers < 1 + work s.timers) s.registered _ s (λ e. omega arith)
      (λ e. omega arith)

take_first :
    (now : ℕ) (t : Timer) (ts : List Timer)
    → t.due ≤ now
    → take_due now 0 (t ∷ ts) ≡ some (t.task, ts)
unfolding take_due
take_first now t ts h = ground (arith, h)

first-work :
    (s : Toasts) (ts : List Timer)
    → work s.timers ≡ work ts
    → All (λ t. t.due ≤ s.now) ts
    → work (fire_task (take_due s.now 0 ts) s).timers ≤ work ts - 1
unfolding take_due fire_task work
first-work s [] e h = omega (arith, e)
first-work s (t ∷ ts) e h =
    rw (take_first s.now t ts h.0) (omega (arith, do_task-work t.task (record s { timers = ts })))

waits-work :
    (n : ℕ) (s : Toasts) → IsBounded s → work s.timers ≤ n → work (run (waits n) s).timers ≡ 0
unfolding run step
waits-work zero s h k = omega (arith, k)
waits-work (suc n) s h k =
    let later = step (waited 8000) s in
    waits-work n (step (fired 0) later)
      (step-IsBounded (fired 0) later (step-IsBounded (waited 8000) s h))
      (omega (arith, k, first-work later s.timers refl h))

weight_bounds : (task : Task) → (1 ≤ weight task) × (weight task ≤ 2)
unfolding weight
weight_bounds (dismissing id) = (omega arith, omega arith)
weight_bounds (removing id) = (omega arith, omega arith)

work-length : (ts : List Timer) → work ts ≤ length ts + length ts
unfolding work weight
work-length [] = omega arith
work-length (t ∷ ts) = omega (arith, work-length ts, (weight_bounds t.task).1)

no_timers : (ts : List Timer) → work ts ≡ 0 → ts ≡ []
unfolding work weight
no_timers [] h = refl
no_timers (t ∷ ts) h = absurd (omega (arith, h, (weight_bounds t.task).0))

unshown :
    (ts : List Toast) (timers : List Timer)
    → timers ≡ []
    → ((id : ℕ) → contains (toast_ids ts) id ≡ true → contains (timer_ids timers) id ≡ true)
    → ts ≡ []
unfolding contains
unshown [] timers e h = refl
unshown (t ∷ ts) [] e h = ground (arith, h t.id, ==_refl t.id)
unshown (t ∷ ts) (u ∷ timers) e h = cc

loaded-IsAttended : (now : ℕ) → IsAttended (loaded now)
loaded-IsAttended now = record {
  attended = λ id h. absurd (none_seen [] id refl h);
  unseen = λ e. refl;
}

-- Whatever happened since the page was loaded, when the first timer fires each time the browser
-- has waited 8000 ms, at least twice as often as timers wait, no notice is left.
pub waits_clear :
    (now : ℕ) (events : List Event) (n : ℕ)
    → length (run events (loaded now)).timers + length (run events (loaded now)).timers ≤ n
    → (run (waits n) (run events (loaded now))).toasts ≡ []
waits_clear now events n h =
    let s = run events (loaded now) in
    let bounded = run-IsBounded events (loaded now) tt in
    let e = waits-work n s bounded (omega (arith, h, work-length s.timers)) in
    let a =
      run-IsAttended (waits n) s (run-IsAttended events (loaded now) (loaded-IsAttended now)) in
    unshown (run (waits n) s).toasts (run (waits n) s).timers (no_timers _ e) a.attended
