-- ===== src/Polling/Tests.antt =====
-- Polls, and the theorems about them.
use pikoci.Base.{true, false, none, some, [], ◌∷◌, ◌≡◌, refl, arith, number_equality}
use pikoci.Polling.{
  Poll, schedule, tick, settled, fire, settle, show, unmount, step, run, mount, loops,
}
use pikoci.Polling.Unmount.{unmounted_quiet}
use pikoci.Polling.Loops.{IsVisible, steady_loops}

-- Waiting for the first timer.
abbrev waiting : Poll
waiting = record {
  timeout_id = some 1;
  stopped = false;
  listening = true;
  hidden = false;
  armed = 1 ∷ [];
  next_id = 2;
  running = 0;
  calls = 1;
}

-- The first call of `fn` is in flight.
abbrev in_flight : Poll
in_flight = record {
  timeout_id = none;
  stopped = false;
  listening = true;
  hidden = false;
  armed = [];
  next_id = 1;
  running = 1;
  calls = 1;
}

mounted : mount false ≡ in_flight
unfolding mount tick
mounted = refl

first_timer : run (mount false) (settle ∷ []) ≡ waiting
unfolding run step mount tick schedule settled
first_timer = refl

unmounted_quiet_example :
    ((run (step waiting unmount) (fire 1 ∷ show ∷ settle ∷ [])).calls ≡ 1)
    × ((run (step waiting unmount) (fire 1 ∷ show ∷ settle ∷ [])).next_id ≡ 2)
unmounted_quiet_example = unmounted_quiet waiting (fire 1 ∷ show ∷ settle ∷ [])

steady_loops_example : loops (run (mount false) (settle ∷ fire 1 ∷ settle ∷ fire 2 ∷ [])) ≡ 1
steady_loops_example = steady_loops (settle ∷ fire 1 ∷ settle ∷ fire 2 ∷ []) (ground arith)

visible : {p : Poll} → p.stopped ≡ false → p.listening ≡ true → p.hidden ≡ false → IsVisible p
visible a b c = record { mounted = a; listens = b; shown = c }
