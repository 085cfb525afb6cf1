-- ===== src/Toasts/Tests.antt =====
-- Runs of the notices.
use pikoci.Base.{
  ◌≡◌, true, refl, List, [], ◌∷◌, map, arith, contains, text_equality, number_equality,
}
use pikoci.Toasts.{
  set_show, show_toast, dismiss_toast, remove_toast, reveal, do_task, draw_frame, take_due,
  fire_task, Event, shown, framed, waited, fired, mounted, step, run, loaded, duration,
}
use pikoci.Toasts.Draining.{waits, waits_clear}
use pikoci.Toasts.Staying.{after, show_toast_stays}

-- A failure and a success of the same millisecond.
abbrev two_shown : List Event
two_shown =
    mounted ∷ waited 10 ∷ shown "no connection" "error" ∷ shown "saved" "success" ∷ framed ∷ []

-- They have one id, and the timer of the success takes both away.
same_moment :
    (run (waited 4000 ∷ fired 1 ∷ waited 300 ∷ fired 1 ∷ []) (run two_shown (loaded 0))).toasts ≡ []
unfolding run step show_toast dismiss_toast remove_toast reveal do_task draw_frame take_due
    fire_task duration set_show
same_moment = refl

waits_clear_example : (run (waits 4) (run two_shown (loaded 0))).toasts ≡ []
unfolding run step show_toast reveal draw_frame duration
waits_clear_example = waits_clear 0 two_shown 4 (omega arith)

show_toast_stays_example :
    contains
      (map
        (λ t. t.id)
        (run
          (framed ∷ waited 4000 ∷ fired 1 ∷ [])
          (show_toast "saved" "success" (after 5 (shown "ready" "info" ∷ waited 20 ∷ [])))).toasts)
      25
    ≡ true
unfolding run step show_toast dismiss_toast remove_toast reveal do_task draw_frame take_due
    fire_task duration set_show
show_toast_stays_example =
    show_toast_stays 5 (shown "ready" "info" ∷ waited 20 ∷ []) (framed ∷ waited 4000 ∷ fired 1 ∷ [])
      "saved" "success" (tt, (tt, tt)) (tt, (tt, (tt, tt))) (omega arith)
