-- ===== src/Zoom/Fixed.antt =====
-- What a click leaves as it was (graph-zoom.js).
use pikoci.Base.{false, ◌≡◌, refl, ap, ◌∙◌, inl, inr, List, [], ◌∷◌, ◌++◌, map, All, Bool-cases}
use pikoci.Zoom.Numbers.{Numbers}
use pikoci.Zoom.View.{Rect}
use pikoci.Zoom.Gestures.{
  Point, Hand, Event, mouse_down, mouse_move, released, begin_pan, pan_start, drag, drag_from,
  can_pan, pan_move, pan_end, is_far, is_dragged, was_dragged, step, run,
}

module _ (n : Numbers) where
  -- The point is not far from where the press began.
  abbrev pub IsNear : Point n.Number → Point n.Number × Rect n.Number → Type 0
  IsNear p q = (is_far n (n.sub q.0.x p.x) ≡ false) × (is_far n (n.sub q.0.y p.y) ≡ false)

  abbrev pub move : Point n.Number × Rect n.Number → Event n.Number
  move q = mouse_move q.0 q.1

module _ (n : Numbers) where
  run-append :
      (es fs : List (Event n.Number)) (s : Hand n.Number)
      → run n (es ++ fs) s ≡ run n fs (run n es s)
  unfolding run
  run-append [] fs s = refl
  run-append (e ∷ es) fs s = run-append es fs (step n e s)

  module _ (p : Point n.Number) where
    near_drag :
        (q : Point n.Number × Rect n.Number) (s : Hand n.Number)
        → IsNear n p q
        → drag n q.0 q.1 (record { from = p; dragged = false }) s ≡ s
    unfolding drag is_dragged
    near_drag q s near = rw (near.0, near.1) refl

    near_move :
        (q : Point n.Number × Rect n.Number) (s : Hand n.Number)
        → IsNear n p q
        → step n (move n q) (begin_pan n p s) ≡ begin_pan n p s
    unfolding step pan_move drag_from begin_pan
    near_move q s near = elim (Bool-cases (can_pan n (begin_pan n p s))) [
      | inl e ↦ rw e (near_drag q (begin_pan n p s) near)
      | inr e ↦ rw e refl
    ]

    near_moves :
        (qs : List (Point n.Number × Rect n.Number)) (s : Hand n.Number)
        → All (IsNear n p) qs
        → run n (map (move n) qs) (begin_pan n p s) ≡ begin_pan n p s
    unfolding run
    near_moves [] s h = refl
    near_moves (q ∷ qs) s (h, hs) =
        ap (run n (map (move n) qs)) (near_move q s h) ∙ near_moves qs s hs

-- A press, moves, and the release.
abbrev pub press :
    (n : Numbers) → Point n.Number → List (Point n.Number × Rect n.Number) → List (Event n.Number)
press n p qs = mouse_down 0 false p ∷ (map (move n) qs ++ released ∷ [])

-- If every move between a press and its release stays within the threshold of the press, then the
-- view is not moved, and the next click is suppressed exactly if it was before.
still_press_lem :
    (n : Numbers) (p : Point n.Number) (qs : List (Point n.Number × Rect n.Number))
    (s : Hand n.Number)
    → All (IsNear n p) qs
    → ((run n (press n p qs) s).view ≡ s.view) × ((run n (press n p qs) s).suppress ≡ s.suppress)
unfolding run step pan_start pan_end was_dragged begin_pan
still_press_lem n p qs s h =
    let e =
      run-append n (map (move n) qs) (released ∷ []) (begin_pan n p s)
      ∙ ap (run n (released ∷ [])) (near_moves n p qs s h) in
    (ap (λ t. t.view) e, ap (λ t. t.suppress) e)
