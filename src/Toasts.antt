-- ===== src/Toasts.antt =====
-- The notices (toast.js, and `Notice` of components/Layout.js that shows them). The browser's part is
-- an event: time passes, a frame is drawn, a timer that is due fires, the user closes a notice.
pub mod Draining
pub mod Leaving
pub mod Staying
mod Tests
use pikoci.Base.{
  ℕ, zero, suc, ◌+◌, Bool, true, false, not, Option, none, some, List, [], ◌∷◌, ◌++◌, String, map,
  filter, if◌then◌else◌, ◌==◌, leb, number_equality, text_equality,
}

pub record Toast : Type 0 where
  pub id : ℕ
  pub msg : String
  pub kind : String
  pub show : Bool

-- What a timer does: `dismissToast`, or the removal that it asks for.
pub data Task : Type 0 where
  dismissing : ℕ → Task
  removing : ℕ → Task

pub record Timer : Type 0 where
  pub due : ℕ
  pub task : Task

pub record Toasts : Type 0 where
  pub registered : Bool  -- `_setToasts` is a function
  pub toasts : List Toast
  pub frames : List ℕ  -- the callbacks for the next frame, by the id they show
  pub timers : List Timer
  pub now : ℕ  -- `Date.now()`

unfoldable pub duration : String → ℕ
duration kind = if kind == "error" then 8000 else 4000

unfoldable pub set_show : ℕ → Bool → Toast → Toast
set_show id b t = if t.id == id then record t { show = b } else t

-- `showToast`
unfoldable pub show_toast : String → String → Toasts → Toasts
show_toast msg kind s =
    if s.registered
    then record s {
      toasts = s.toasts ++ (record { id = s.now; msg = msg; kind = kind; show = false }) ∷ [];
      frames = s.frames ++ s.now ∷ [];
      timers = s.timers ++ (record { due = s.now + duration kind; task = dismissing s.now }) ∷ [];
    }
    else s

-- `dismissToast`
unfoldable pub dismiss_toast : ℕ → Toasts → Toasts
dismiss_toast id s =
    if s.registered
    then record s {
      toasts = map (set_show id false) s.toasts;
      timers = s.timers ++ (record { due = s.now + 300; task = removing id }) ∷ [];
    }
    else s

-- The callback of the timer of `dismissToast`.
unfoldable pub remove_toast : ℕ → Toasts → Toasts
remove_toast id s =
    if s.registered then record s { toasts = filter (λ t. not (t.id == id)) s.toasts } else s

-- The callback of `requestAnimationFrame`.
unfoldable pub reveal : ℕ → Toasts → Toasts
reveal id s = if s.registered then record s { toasts = map (set_show id true) s.toasts } else s

unfoldable pub do_task : Task → Toasts → Toasts
do_task (dismissing id) s = dismiss_toast id s
do_task (removing id) s = remove_toast id s

-- The first of the callbacks that wait for a frame.
unfoldable pub draw_frame : List ℕ → Toasts → Toasts
draw_frame [] s = s
draw_frame (id ∷ ids) s = reveal id (record s { frames = ids })

-- The timer at a position, when it is due, and the others.
unfoldable pub take_due : ℕ → ℕ → List Timer → Option (Task × List Timer)
take_due now k [] = none
take_due now zero (t ∷ ts) = if leb t.due now then some (t.task, ts) else none
take_due now (suc k) (t ∷ ts) = elim (take_due now k ts) [
  | none ↦ none
  | some (task, rest) ↦ some (task, t ∷ rest)
]

unfoldable pub fire_task : Option (Task × List Timer) → Toasts → Toasts
fire_task none s = s
fire_task (some (task, rest)) s = do_task task (record s { timers = rest })

pub data Event : Type 0 where
  shown : String → String → Event  -- a call of `showToast`
  closed : ℕ → Event  -- the button of a notice
  framed : Event
  waited : ℕ → Event
  fired : ℕ → Event  -- the timer at a position
  mounted unmounted : Event  -- the component `Notice`

unfoldable pub step : Event → Toasts → Toasts
step (shown msg kind) s = show_toast msg kind s
step (closed id) s = dismiss_toast id s
step framed s = draw_frame s.frames s
step (waited n) s = record s { now = s.now + n }
step (fired k) s = fire_task (take_due s.now k s.timers) s
step mounted s = record s { registered = true; toasts = [] }
step unmounted s = record s { registered = false; toasts = [] }

unfoldable pub run : List Event → Toasts → Toasts
run [] s = s
run (e ∷ events) s = run events (step e s)

-- The module before `Notice` is mounted.
abbrev pub loaded : ℕ → Toasts
loaded now = record { registered = false; toasts = []; frames = []; timers = []; now = now }

abbrev pub task_id : Task → ℕ
task_id (dismissing id) = id
task_id (removing id) = id

abbrev pub toast_ids : List Toast → List ℕ
toast_ids ts = map (λ t. t.id) ts
