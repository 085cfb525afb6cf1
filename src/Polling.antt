-- ===== src/Polling.antt =====
-- The hook `usePolling` (hooks.js). A poll is one component's effect from mount to unmount; what the
-- browser does (a timer fires, a call of `fn` settles, the tab is hidden or shown) is an event.
pub mod Loops
pub mod Unmount
mod Tests
use pikoci.Base.{
  ℕ, zero, suc, ◌+◌, ◌-◌, Bool, true, false, not, Option, none, some, List, [], ◌∷◌, filter, length,
  if◌then◌else◌, ◌==◌, number_equality, contains,
}

pub record Poll : Type 0 where
  pub timeout_id : Option ℕ  -- the variable; it keeps the id of a timer that has fired
  pub stopped : Bool
  pub listening : Bool  -- the listener for `visibilitychange` is there
  pub hidden : Bool  -- `document.hidden`
  pub armed : List ℕ  -- the timers of the browser that will fire
  pub next_id : ℕ  -- the id of the next timer
  pub running : ℕ  -- calls of `tick` that wait for `fn`
  pub calls : ℕ  -- how often `fn` was called

unfoldable pub schedule : Poll → Poll
schedule p = if p.stopped then p else record p {
  timeout_id = some p.next_id;
  armed = p.next_id ∷ p.armed;
  next_id = suc p.next_id;
}

-- `tick` up to its `await`
unfoldable pub tick : Poll → Poll
tick p = if p.stopped then p else record p { running = suc p.running; calls = suc p.calls }

unfoldable pub start : Poll → Poll
unfolding tick
start p = elim p.timeout_id [ none ↦ tick p | some _ ↦ p ]

unfoldable pub disarm : ℕ → List ℕ → List ℕ
disarm id timers = filter (λ t. not (t == id)) timers

unfoldable pub stop : Poll → Poll
stop p = elim p.timeout_id [
  | none ↦ p
  | some id ↦ record p { armed = disarm id p.armed; timeout_id = none }
]

unfoldable pub on_visibility : Poll → Poll
unfolding start stop
on_visibility p = if p.listening then (if p.hidden then stop p else start p) else p

pub data Event : Type 0 where
  fire : ℕ → Event
  settle hide show unmount : Event

-- The rest of `tick`, whether `fn` succeeded or threw.
unfoldable pub settled : ℕ → Poll → Poll
unfolding schedule
settled zero p = p
settled (suc n) p = schedule (record p { running = n })

unfoldable pub step : Poll → Event → Poll
unfolding tick on_visibility settled stop
step p (fire id) = if contains p.armed id then tick (record p { armed = disarm id p.armed }) else p
step p settle = settled p.running p
step p hide = if p.hidden then p else on_visibility (record p { hidden = true })
step p show = if p.hidden then on_visibility (record p { hidden = false }) else p
step p unmount = record (stop (record p { stopped = true })) { listening = false }

-- The effect when it is mounted.
unfoldable pub mount : Bool → Poll
unfolding start
mount hidden =
    let p : Poll = record {
      timeout_id = none;
      stopped = false;
      listening = true;
      hidden = hidden;
      armed = [];
      next_id = 1;
      running = 0;
      calls = 0;
    } in
    if hidden then p else start p

unfoldable pub run : Poll → List Event → Poll
run p [] = p
run p (e ∷ events) = run (step p e) events

-- The polling loops that are alive: each waits for a timer or for a call.
abbrev pub loops : Poll → ℕ
loops p = length p.armed + p.running
