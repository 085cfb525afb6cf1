-- ===== src/Toasts/Leaving.antt =====
-- The notices that are left when time passes.
use mathlib.Core.Path.{subst}
use pikoci.Base.{
  String, ℕ, zero, suc, ◌+◌, ◌≤◌, Bool, true, false, not, ◌||◌, none, some, List, [], ◌∷◌, ◌++◌,
  map, filter, ◌≡◌, refl, arith, contains, leb, leb→le, ◌==◌, if◌then◌else◌, number_equality,
  Bool-cases, Option, inl, inr, All,
}
use pikoci.Toasts.{
  Toasts, Toast, Task, Timer, dismissing, removing, set_show, show_toast, dismiss_toast,
  remove_toast, reveal, do_task, draw_frame, take_due, fire_task, Event, shown, closed, framed,
  waited, fired, mounted, unmounted, step, run, task_id, toast_ids,
}

abbrev pub timer_ids : List Timer → List ℕ
timer_ids ts = map (λ t. task_id t.task) ts

pub toast_ids-set_show :
    (id : ℕ) (b : Bool) (ts : List Toast) → toast_ids (map (set_show id b) ts) ≡ toast_ids ts
unfolding set_show
toast_ids-set_show id b [] = refl
toast_ids-set_show id b (t ∷ ts) = elim (Bool-cases (t.id == id)) [
  | inl e ↦ rw (e, toast_ids-set_show id b ts) refl
  | inr e ↦ rw (e, toast_ids-set_show id b ts) refl
]

pub toast_last :
    (ts : List Toast) (t : Toast) (id : ℕ)
    → contains (toast_ids (ts ++ t ∷ [])) id ≡ (contains (toast_ids ts) id || (t.id == id))
unfolding contains
toast_last [] t id = ground arith
toast_last (u ∷ ts) t id = ground (arith, toast_last ts t id)

timer_last :
    (ts : List Timer) (t : Timer) (id : ℕ)
    → contains (timer_ids (ts ++ t ∷ [])) id
      ≡ (contains (timer_ids ts) id || (task_id t.task == id))
unfolding contains
timer_last [] t id = ground arith
timer_last (u ∷ ts) t id = ground (arith, timer_last ts t id)

pub none_seen : (ts : List Toast) (id : ℕ) → ts ≡ [] → contains (toast_ids ts) id ≡ true → ⊥
unfolding contains
none_seen [] id e h = cc
none_seen (t ∷ ts) id e h = cc

-- What holds of both branches.
pub either_state :
    (P : Toasts → Type 0) (b : Bool) (s t : Toasts)
    → (b ≡ true → P s)
    → (b ≡ false → P t)
    → P (if b then s else t)
either_state P true s t h k = h refl
either_state P false s t h k = k refl

-- A notice that is still there after `remove_toast` has another id, and was there before.
removed-contains :
    (id other : ℕ) (ts : List Toast)
    → contains (toast_ids (filter (λ t. not (t.id == id)) ts)) other ≡ true
    → (contains (toast_ids ts) other ≡ true) × ((id == other) ≡ false)
unfolding contains
removed-contains id other [] h = cc
removed-contains id other (t ∷ ts) h = ground (arith, removed-contains id other ts)

-- One timer that is due is taken out of the list.
pub data Takes (now : ℕ) : List Timer → Task → List Timer → Type 0 where
  here : (t : Timer) (ts : List Timer) → t.due ≤ now → Takes now (t ∷ ts) t.task ts
  there :
      (t : Timer) (ts rest : List Timer) (task : Task)
      → Takes now ts task rest
      → Takes now (t ∷ ts) task (t ∷ rest)

-- Of what `take_due` returns.
abbrev pub IsTaken : ℕ → List Timer → Option (Task × List Timer) → Type 0
IsTaken now ts none = Unit
IsTaken now ts (some (task, rest)) = Takes now ts task rest

IsTaken-behind :
    (now : ℕ) (t : Timer) (ts : List Timer) (o : Option (Task × List Timer))
    → IsTaken now ts o
    → IsTaken now (t ∷ ts) (elim o [ none ↦ none | some (task, rest) ↦ some (task, t ∷ rest) ])
IsTaken-behind now t ts none k = tt
IsTaken-behind now t ts (some (task, rest)) k = there t ts rest task k

pub take_due-IsTaken : (now k : ℕ) (ts : List Timer) → IsTaken now ts (take_due now k ts)
unfolding take_due
take_due-IsTaken now k [] = tt
take_due-IsTaken now zero (t ∷ ts) = elim (Bool-cases (leb t.due now)) [
  | inl e ↦ rw e (here t ts (leb→le t.due now e))
  | inr e ↦ rw e tt
]
take_due-IsTaken now (suc k) (t ∷ ts) =
    IsTaken-behind now t ts (take_due now k ts) (take_due-IsTaken now k ts)

Takes-contains :
    (now : ℕ) (ts : List Timer) (task : Task) (rest : List Timer) (id : ℕ)
    → Takes now ts task rest
    → contains (timer_ids ts) id ≡ ((task_id task == id) || contains (timer_ids rest) id)
unfolding contains
Takes-contains now _ _ _ id (here t ts h) = refl
Takes-contains now _ _ _ id (there t ts rest task k) =
    ground (arith, Takes-contains now ts task rest id k)

-- How many calls the timers still make: a dismissal is followed by a removal.
unfoldable pub weight : Task → ℕ
weight (dismissing _) = 2
weight (removing _) = 1

unfoldable pub work : List Timer → ℕ
work [] = 0
work (t ∷ ts) = weight t.task + work ts

pub Takes-work :
    (now : ℕ) (ts : List Timer) (task : Task) (rest : List Timer)
    → Takes now ts task rest
    → work ts ≡ weight task + work rest
unfolding work
Takes-work now _ _ _ (here t ts h) = refl
Takes-work now _ _ _ (there t ts rest task k) = omega (arith, Takes-work now ts task rest k)

pub Takes-All :
    (P : Timer → Type 0) (now : ℕ) (ts : List Timer) (task : Task) (rest : List Timer)
    → Takes now ts task rest
    → All P ts
    → All P rest
Takes-All P now _ _ _ (here t ts h) a = a.1
Takes-All P now _ _ _ (there t ts rest task k) a = (a.0, Takes-All P now ts task rest k a.1)

-- Every notice has a timer that will take it away.
pub record IsAttended (s : Toasts) : Type 0 where
  pub attended :
      (id : ℕ) → contains (toast_ids s.toasts) id ≡ true → contains (timer_ids s.timers) id ≡ true
  pub unseen : s.registered ≡ false → s.toasts ≡ []

shown_attended :
    {x y p q : Bool} (b : Bool)
    → x ≡ (p || b)
    → y ≡ (q || b)
    → (p ≡ true → q ≡ true)
    → x ≡ true
    → y ≡ true
shown_attended true e f k h = ground (arith, e, f)
shown_attended false e f k h = ground (arith, e, f, k, h)

show_toast-IsAttended :
    (msg kind : String) (s : Toasts) → IsAttended s → IsAttended (show_toast msg kind s)
unfolding show_toast
show_toast-IsAttended msg kind s a =
    either_state IsAttended s.registered _ s
      (λ e. record {
        attended = λ id h.
            shown_attended (s.now == id) (toast_last s.toasts _ id) (timer_last s.timers _ id)
              (a.attended id) h;
        unseen = λ f. cc;
      })
      (λ e. a)

dismiss_toast-IsAttended : (id : ℕ) (s : Toasts) → IsAttended s → IsAttended (dismiss_toast id s)
unfolding dismiss_toast
dismiss_toast-IsAttended i s a =
    either_state IsAttended s.registered _ s
      (λ e. record {
        attended = λ id h.
            let old =
              a.attended id
                (subst (λ l. contains l id ≡ true) (toast_ids-set_show i false s.toasts) h) in
            ground (
              arith,
              timer_last s.timers (record { due = s.now + 300; task = removing i }) id,
              old,
            );
        unseen = λ f. cc;
      })
      (λ e. a)

reveal-IsAttended : (id : ℕ) (s : Toasts) → IsAttended s → IsAttended (reveal id s)
unfolding reveal
reveal-IsAttended i s a =
    either_state IsAttended s.registered _ s
      (λ e. record {
        attended = λ id h.
            a.attended id
              (subst (λ l. contains l id ≡ true) (toast_ids-set_show i true s.toasts) h);
        unseen = λ f. cc;
      })
      (λ e. a)

-- A timer was taken, and its callback runs.
fire_task-IsAttended :
    (s : Toasts) (o : Option (Task × List Timer))
    → IsTaken s.now s.timers o
    → IsAttended s
    → IsAttended (fire_task o s)
unfolding fire_task do_task dismiss_toast remove_toast
fire_task-IsAttended s none k a = a
fire_task-IsAttended s (some (dismissing i, rest)) k a =
    either_state IsAttended s.registered _ _
      (λ e. record {
        attended = λ id h.
            let old =
              a.attended id
                (subst (λ l. contains l id ≡ true) (toast_ids-set_show i false s.toasts) h) in
            let t = Takes-contains s.now s.timers (dismissing i) rest id k in
            ground
              (arith, timer_last rest (record { due = s.now + 300; task = removing i }) id, old, t);
        unseen = λ f. cc;
      })
      (λ e. record {
        attended = λ id h. absurd (none_seen s.toasts id (a.unseen e) h);
        unseen = a.unseen;
      })
fire_task-IsAttended s (some (removing i, rest)) k a =
    either_state IsAttended s.registered _ _
      (λ e. record {
        attended = λ id h.
            let r = removed-contains i id s.toasts h in
            let old = a.attended id r.0 in
            ground (arith, old, r.1, Takes-contains s.now s.timers (removing i) rest id k);
        unseen = λ f. cc;
      })
      (λ e. record {
        attended = λ id h. absurd (none_seen s.toasts id (a.unseen e) h);
        unseen = a.unseen;
      })

draw_frame-IsAttended : (ids : List ℕ) (s : Toasts) → IsAttended s → IsAttended (draw_frame ids s)
unfolding draw_frame
draw_frame-IsAttended [] s a = a
draw_frame-IsAttended (id ∷ ids) s a =
    reveal-IsAttended id (record s { frames = ids })
      (record { attended = a.attended; unseen = a.unseen })

step-IsAttended : (e : Event) (s : Toasts) → IsAttended s → IsAttended (step e s)
unfolding step
step-IsAttended (shown msg kind) s a = show_toast-IsAttended msg kind s a
step-IsAttended (closed id) s a = dismiss_toast-IsAttended id s a
step-IsAttended framed s a = draw_frame-IsAttended s.frames s a
step-IsAttended (waited n) s a = record { attended = a.attended; unseen = a.unseen }
step-IsAttended (fired k) s a =
    fire_task-IsAttended s (take_due s.now k s.timers) (take_due-IsTaken s.now k s.timers) a
step-IsAttended mounted s a = record {
  attended = λ id h. absurd (none_seen [] id refl h);
  unseen = λ e. refl;
}
step-IsAttended unmounted s a = record {
  attended = λ id h. absurd (none_seen [] id refl h);
  unseen = λ e. refl;
}

pub run-IsAttended : (events : List Event) (s : Toasts) → IsAttended s → IsAttended (run events s)
unfolding run
run-IsAttended [] s a = a
run-IsAttended (e ∷ events) s a = run-IsAttended events (step e s) (step-IsAttended e s a)
