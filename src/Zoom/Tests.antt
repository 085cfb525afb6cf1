-- ===== src/Zoom/Tests.antt =====
-- Runs of the zoom of the graph, in hundredths.
use pikoci.Base.{ℕ, true, false, ◌≡◌, none, some, List, [], ◌∷◌, ◌++◌, arith, contains}
use pikoci.Zoom.Hundredths.{ℤ, pos, hundredths, hundredths-IsReal}
use pikoci.Zoom.View.{Box, View, Rect, Drawing}
use pikoci.Zoom.Gestures.{
  Point, Event, attached, pressed_in, wheel, mouse_down, mouse_move, released, clicked, run,
  new_hand, new_view,
}
use pikoci.Zoom.Bounds.{IsSound}
use pikoci.Zoom.Runs.{gestures-IsSound}
use pikoci.Zoom.Screen.{Screen, enter, exit, next_of}
use pikoci.Zoom.Siblings.{at_rest, exit-enter}

abbrev place : Rect ℤ
place = record { left = pos 0; top = pos 0; width = pos 80000; height = pos 40000 }

abbrev drawing : Drawing ℤ
drawing = record { width = some (pos 40000); height = some (pos 20000); view_box = none }

abbrev point : ℕ → Point ℤ
point k = record { x = pos k; y = pos k }

abbrev gestures : List (Event ℤ)
gestures =
    pressed_in
    ∷ wheel false true true (point 20000) place
    ∷ mouse_down 0 false (point 100)
    ∷ mouse_move (point 9000) place
    ∷ released
    ∷ clicked
    ∷ []

gestures-IsSound_example :
    IsSound hundredths
      (run hundredths (attached drawing place ∷ gestures) (new_hand hundredths)).view
gestures-IsSound_example =
    gestures-IsSound hundredths hundredths-IsReal drawing place gestures
      (tt, (tt, (tt, (tt, (tt, (tt, tt))))))

abbrev box : Box ℤ
box = record { x = pos 0; y = pos 0; w = pos 40000; h = pos 20000 }

abbrev view : View ℤ
view = new_view hundredths

abbrev page : Screen
page = record {
  svg = none;
  home = 4 ∷ 7 ∷ 9 ∷ [];
  legend = none;
  legend_home = 1 ∷ 2 ∷ [];
  overlay = false;
  svg_next = none;
  legend_next = none;
  controls = true;
  listeners = 0;
  reports = [];
}

exit-enter_example :
    exit (enter (at_rest 7 (some 2) page))
    ≡ some (record (at_rest 7 (some 2) page) {
      svg_next = some (next_of 7 page.home);
      reports = (page.reports ++ true ∷ []) ++ false ∷ [];
    })
unfolding contains
exit-enter_example =
    exit-enter 7 (some 2) page (ground arith, ground arith) (ground arith, ground arith)
