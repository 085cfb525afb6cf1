-- ===== src/Polling/Unmount.antt =====
-- After the unmount.
use pikoci.Base.{true, List, [], ◌∷◌, ◌≡◌, refl, ◌∙◌, arith}
use pikoci.Polling.{Poll, Event, fire, settle, hide, show, unmount, step, run}

step_stopped :
    (p : Poll) (e : Event)
    → p.stopped ≡ true
    → ((step p e).stopped ≡ true) × ((step p e).calls ≡ p.calls) × ((step p e).next_id ≡ p.next_id)
unfolding step
step_stopped p (fire id) h = ground arith
step_stopped p settle h = ground arith
step_stopped p hide h = ground arith
step_stopped p show h = ground arith
step_stopped p unmount h = ground arith

run_stopped :
    (p : Poll) (events : List Event)
    → p.stopped ≡ true
    → ((run p events).calls ≡ p.calls) × ((run p events).next_id ≡ p.next_id)
unfolding run
run_stopped p [] h = (refl, refl)
run_stopped p (e ∷ events) h =
    let (s, c, n) = step_stopped p e h in
    let (c', n') = run_stopped (step p e) events s in (c' ∙ c, n' ∙ n)

-- Once the component is unmounted, `fn` is never called and no timer is ever set again, whatever
-- timers fire, calls settle or visibility changes come after.
pub unmounted_quiet :
    (p : Poll) (events : List Event)
    → ((run (step p unmount) events).calls ≡ p.calls)
      × ((run (step p unmount) events).next_id ≡ p.next_id)
unfolding step
unmounted_quiet p events =
    let (c, n) = run_stopped (step p unmount) events (ground arith) in
    (c ∙ ground arith, n ∙ ground arith)
