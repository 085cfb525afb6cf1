-- ===== src/Toasts/Staying.antt =====
-- How long a notice stays.
use mathlib.Core.Path.{subst}
use pikoci.Base.{
  String, ℕ, ◌+◌, ◌≤◌, ◌<◌, Bool, true, false, not, none, some, List, [], ◌∷◌, ◌++◌, map, filter,
  ◌≡◌, refl, sym, arith, contains, ◌==◌, ==_refl, number_equality, text_equality, Bool-cases,
  Option, inl, inr, All, All-append,
}
use pikoci.Toasts.{
  Toasts, Toast, Task, Timer, dismissing, removing, set_show, show_toast, dismiss_toast,
  remove_toast, reveal, do_task, draw_frame, take_due, fire_task, Event, shown, closed, framed,
  waited, fired, mounted, unmounted, step, run, loaded, toast_ids, duration,
}
use pikoci.Toasts.Leaving.{
  IsTaken, take_due-IsTaken, Takes, here, there, Takes-All, either_state, toast_ids-set_show,
  toast_last,
}

-- The first moment that a task of an id may come.
abbrev pub earliest : Task → ℕ
earliest (dismissing id) = id + 4000
earliest (removing id) = id + 4300

abbrev pub IsPatient : Timer → Type 0
IsPatient t = earliest t.task ≤ t.due

-- Nobody closes a notice, and the component stays.
abbrev pub IsUntouched : Event → Type 0
IsUntouched (closed id) = ⊥
IsUntouched mounted = ⊥
IsUntouched unmounted = ⊥
IsUntouched _ = Unit

-- The notice with an id, if one was shown, is there until its time is over.
record IsKept (was_shown : Bool) (id : ℕ) (s : Toasts) : Type 0 where
  pub on : s.registered ≡ true
  pub patient : All IsPatient s.timers
  pub kept : was_shown ≡ true → s.now < id + 4300 → contains (toast_ids s.toasts) id ≡ true

-- The timer that was taken is due.
Takes-due :
    (now : ℕ) (ts : List Timer) (task : Task) (rest : List Timer)
    → Takes now ts task rest
    → All IsPatient ts
    → IsPatient (record { due = now; task = task })
Takes-due now _ _ _ (here t ts h) a = omega (arith, h, a.0)
Takes-due now _ _ _ (there t ts rest task k) a = Takes-due now ts task rest k a.1

filter_keeps :
    (i id : ℕ) (ts : List Toast)
    → (i == id) ≡ false
    → contains (toast_ids ts) id ≡ true
    → contains (toast_ids (filter (λ t. not (t.id == i)) ts)) id ≡ true
unfolding contains
filter_keeps i id [] e h = h
filter_keeps i id (t ∷ ts) e h = ground (arith, filter_keeps i id ts e)

duration_ge : (kind : String) → 4000 ≤ duration kind
unfolding duration
duration_ge kind = elim (Bool-cases (kind == "error")) [
  | inl e ↦ rw e (omega arith)
  | inr e ↦ rw e (omega arith)
]

shown_last :
    (ts : List Toast) (t : Toast) (id : ℕ)
    → contains (toast_ids ts) id ≡ true
    → contains (toast_ids (ts ++ t ∷ [])) id ≡ true
shown_last ts t id h = ground (arith, toast_last ts t id, h)

hidden_kept :
    (i id : ℕ) (b : Bool) (ts : List Toast)
    → contains (toast_ids ts) id ≡ true
    → contains (toast_ids (map (set_show i b) ts)) id ≡ true
hidden_kept i id b ts h = subst (λ l. contains l id ≡ true) (sym (toast_ids-set_show i b ts)) h

show_toast-IsKept :
    (b : Bool) (msg kind : String) (id : ℕ) (s : Toasts)
    → IsKept b id s
    → IsKept b id (show_toast msg kind s)
unfolding show_toast
show_toast-IsKept b msg kind id s a =
    either_state (IsKept b id) s.registered _ s
      (λ e. record {
        on = a.on;
        patient = All-append IsPatient s.timers _ a.patient (omega (arith, duration_ge kind), tt);
        kept = λ w h. shown_last s.toasts _ id (a.kept w h);
      })
      (λ e. a)

do_task-IsKept :
    (b : Bool) (task : Task) (id : ℕ) (s : Toasts)
    → earliest task ≤ s.now
    → IsKept b id s
    → IsKept b id (do_task task s)
unfolding do_task dismiss_toast remove_toast
do_task-IsKept b (dismissing i) id s d a =
    either_state (IsKept b id) s.registered _ s
      (λ e. record {
        on = a.on;
        patient = All-append IsPatient s.timers _ a.patient (omega (arith, d), tt);
        kept = λ w h. hidden_kept i id false s.toasts (a.kept w h);
      })
      (λ e. a)
do_task-IsKept b (removing i) id s d a =
    either_state (IsKept b id) s.registered _ s
      (λ e. record {
        on = a.on;
        patient = a.patient;
        kept = λ w h. filter_keeps i id s.toasts (ground (arith, d, h)) (a.kept w h);
      })
      (λ e. a)

fire_task-IsKept :
    (b : Bool) (o : Option (Task × List Timer)) (id : ℕ) (s : Toasts)
    → IsTaken s.now s.timers o
    → IsKept b id s
    → IsKept b id (fire_task o s)
unfolding fire_task
fire_task-IsKept b none id s k a = a
fire_task-IsKept b (some (task, rest)) id s k a =
    do_task-IsKept b task id (record s { timers = rest })
      (Takes-due s.now s.timers task rest k a.patient)
      (record {
        on = a.on;
        patient = Takes-All IsPatient s.now s.timers task rest k a.patient;
        kept = a.kept;
      })

draw_frame-IsKept :
    (b : Bool) (ids : List ℕ) (id : ℕ) (s : Toasts) → IsKept b id s → IsKept b id (draw_frame ids s)
unfolding draw_frame reveal
draw_frame-IsKept b [] id s a = a
draw_frame-IsKept b (i ∷ ids) id s a =
    either_state (IsKept b id) s.registered _ _
      (λ e. record {
        on = a.on;
        patient = a.patient;
        kept = λ w h. hidden_kept i id true s.toasts (a.kept w h);
      })
      (λ e. record { on = a.on; patient = a.patient; kept = a.kept })

step-IsKept :
    (b : Bool) (e : Event) (id : ℕ) (s : Toasts)
    → IsUntouched e
    → IsKept b id s
    → IsKept b id (step e s)
unfolding step
step-IsKept b (shown msg kind) id s u a = show_toast-IsKept b msg kind id s a
step-IsKept b (closed i) id s u a = absurd u
step-IsKept b framed id s u a = draw_frame-IsKept b s.frames id s a
step-IsKept b (waited n) id s u a = record {
  on = a.on;
  patient = a.patient;
  kept = λ w h. a.kept w (omega (arith, h));
}
step-IsKept b (fired k) id s u a =
    fire_task-IsKept b (take_due s.now k s.timers) id s (take_due-IsTaken s.now k s.timers) a
step-IsKept b mounted id s u a = absurd u
step-IsKept b unmounted id s u a = absurd u

run-IsKept :
    (b : Bool) (events : List Event) (id : ℕ) (s : Toasts)
    → All IsUntouched events
    → IsKept b id s
    → IsKept b id (run events s)
unfolding run
run-IsKept b [] id s u a = a
run-IsKept b (e ∷ events) id s u a =
    run-IsKept b events id (step e s) u.1 (step-IsKept b e id s u.0 a)

-- `Notice` was mounted, and `events` happened.
abbrev pub after : ℕ → List Event → Toasts
after now events = run events (step mounted (loaded now))

shown_first :
    (s : Toasts) (msg kind : String) → IsKept false 0 s → IsKept true s.now (show_toast msg kind s)
unfolding show_toast
shown_first s msg kind a =
    either_state (IsKept true s.now) s.registered _ s
      (λ e. record {
        on = e;
        patient = All-append IsPatient s.timers _ a.patient (omega (arith, duration_ge kind), tt);
        kept = λ w h. ground (
          arith,
          toast_last s.toasts (record { id = s.now; msg = msg; kind = kind; show = false }) s.now,
          ==_refl s.now,
        );
      })
      (λ e. cc)

-- As long as nobody closes a notice and the component stays mounted, a notice that was shown is
-- there at every moment less than 4300 ms later, in whatever order the timers that are due fire.
pub show_toast_stays :
    (now : ℕ) (before events : List Event) (msg kind : String)
    → All IsUntouched before
    → All IsUntouched events
    → (run events (show_toast msg kind (after now before))).now < (after now before).now + 4300
    → contains
        (toast_ids (run events (show_toast msg kind (after now before))).toasts)
        (after now before).now
      ≡ true
unfolding step
show_toast_stays now before events msg kind u v h =
    let start : IsKept false 0 (step mounted (loaded now)) = record {
      on = refl;
      patient = tt;
      kept = λ w. cc;
    } in
    let s = after now before in
    let k =
      shown_first s msg kind (run-IsKept false before 0 (step mounted (loaded now)) u start) in
    (run-IsKept true events s.now (show_toast msg kind s) v k).kept refl h
