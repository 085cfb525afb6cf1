-- ===== src/Zoom/Runs.antt =====
-- What holds after any gestures on the graph (graph-zoom.js).
use pikoci.Base.{
  Bool, ◌&&◌, ◌||◌, Option, none, some, ◌≡◌, ◌⊎◌, refl, inl, inr, List, [], ◌∷◌, All, Bool-cases,
  Option-cases, ℕ, ◌==◌, number_equality,
}
use pikoci.Zoom.Numbers.{Numbers, IsReal, is_falsy}
use pikoci.Zoom.View.{Rect, Drawing, zoom_in, zoom_out}
use pikoci.Zoom.Gestures.{
  Point, Pan, Hand, Event, attached, pressed_in, pressed_out, pressed_reset, wheel, mouse_down,
  mouse_move, released, touch_start, touch_move, clicked, begin_pan, pan_start, drag, drag_from,
  can_pan, pan_move, pan_end, pinch_move, on_touch_start, on_touch_move, on_wheel, on_click, step,
  run, new_hand, new_view, is_dragged,
}
use pikoci.Zoom.Bounds.{
  IsSound, zoom_at_center-IsSound, zoom_at_point-IsSound, reset-IsSound, pan_by-IsSound,
  attach-IsSound,
}

-- The event attaches no drawing.
module _ {A : Type 0} where
  abbrev pub IsGesture : Event A → Type 0
  IsGesture (attached d rect) = ⊥
  IsGesture pressed_in = Unit
  IsGesture pressed_out = Unit
  IsGesture pressed_reset = Unit
  IsGesture (wheel f m u p rect) = Unit
  IsGesture (mouse_down button on_controls p) = Unit
  IsGesture (mouse_move p rect) = Unit
  IsGesture released = Unit
  IsGesture (touch_start points) = Unit
  IsGesture (touch_move points rect) = Unit
  IsGesture clicked = Unit

module _ (n : Numbers) where
  drag_from_cases :
      (o : Option (Pan n.Number)) (p : Point n.Number) (rect : Rect n.Number) (s : Hand n.Number)
      → (drag_from n o p rect s ≡ s)
        ⊎ ((pan : Pan n.Number) × (o ≡ some pan) × (drag_from n o p rect s ≡ drag n p rect pan s))
  unfolding drag_from
  drag_from_cases none p rect s = inl refl
  drag_from_cases (some pan) p rect s = inr (pan, refl, refl)

  -- A move does nothing, or is one of a drag that began.
  pub pan_move_cases :
      (p : Point n.Number) (rect : Rect n.Number) (s : Hand n.Number)
      → (pan_move n p rect s ≡ s)
        ⊎ ((pan : Pan n.Number) × (s.pan ≡ some pan) × (pan_move n p rect s ≡ drag n p rect pan s))
  unfolding pan_move
  pan_move_cases p rect s = elim (Bool-cases (can_pan n s)) [
    | inl e ↦ rw e (drag_from_cases s.pan p rect s)
    | inr e ↦ inl (rw e refl)
  ]

module _ (n : Numbers) (laws : IsReal n) where
  drag-IsSound :
      (p : Point n.Number) (rect : Rect n.Number) (pan : Pan n.Number) (s : Hand n.Number)
      → IsSound n s.view
      → IsSound n (drag n p rect pan s).view
  unfolding drag
  drag-IsSound p rect pan s h = elim (Bool-cases (is_dragged n p pan)) [
    | inl e ↦ rw e (pan_by-IsSound n laws rect _ _ s.view h)
    | inr e ↦ rw e h
  ]

  pan_move-IsSound :
      (p : Point n.Number) (rect : Rect n.Number) (s : Hand n.Number)
      → IsSound n s.view
      → IsSound n (pan_move n p rect s).view
  pan_move-IsSound p rect s h = elim (pan_move_cases n p rect s) [
    | inl e ↦ rw e h
    | inr (pan, _, e) ↦ rw e (drag-IsSound p rect pan s h)
  ]

  pan_start-IsSound :
      (button : ℕ) (on_controls : Bool) (p : Point n.Number) (s : Hand n.Number)
      → IsSound n s.view
      → IsSound n (pan_start n button on_controls p s).view
  unfolding pan_start begin_pan
  pan_start-IsSound button on_controls p s h = elim (Bool-cases (button == 0)) [
    | inl e ↦ elim (Bool-cases on_controls) [ inl f ↦ rw (e, f) h | inr f ↦ rw (e, f) h ]
    | inr e ↦ rw e h
  ]

  on_touch_start-IsSound :
      (points : List (Point n.Number)) (s : Hand n.Number)
      → IsSound n s.view
      → IsSound n (on_touch_start n points s).view
  unfolding on_touch_start begin_pan
  on_touch_start-IsSound [] s h = h
  on_touch_start-IsSound (p ∷ []) s h = h
  on_touch_start-IsSound (p ∷ q ∷ []) s h = h
  on_touch_start-IsSound (p ∷ q ∷ r ∷ rest) s h = h

  on_touch_move-IsSound :
      (points : List (Point n.Number)) (rect : Rect n.Number) (s : Hand n.Number)
      → IsSound n s.view
      → IsSound n (on_touch_move n points rect s).view
  unfolding on_touch_move pinch_move
  on_touch_move-IsSound [] rect s h = h
  on_touch_move-IsSound (p ∷ []) rect s h = pan_move-IsSound p rect s h
  on_touch_move-IsSound (p ∷ q ∷ []) rect s h = elim (Option-cases s.pinch) [
    | inl e ↦ rw e h
    | inr (start, e) ↦ elim (Bool-cases (is_falsy n start)) [
      | inl f ↦ rw (e, f) h
      | inr f ↦ rw (e, f) (zoom_at_point-IsSound n laws rect _ _ _ s.view h)
    ]
  ]
  on_touch_move-IsSound (p ∷ q ∷ r ∷ rest) rect s h = h

  on_wheel-IsSound :
      (f m u : Bool) (p : Point n.Number) (rect : Rect n.Number) (s : Hand n.Number)
      → IsSound n s.view
      → IsSound n (on_wheel n f m u p rect s).view
  unfolding on_wheel
  on_wheel-IsSound f m u p rect s h = elim (Bool-cases (s.view.has_svg && (f || m))) [
    | inl e ↦ rw e (zoom_at_point-IsSound n laws rect _ _ _ s.view h)
    | inr e ↦ rw e h
  ]

  step-IsSound :
      (e : Event n.Number) (s : Hand n.Number)
      → IsGesture e
      → IsSound n s.view
      → IsSound n (step n e s).view
  unfolding step zoom_in zoom_out pan_end on_click
  step-IsSound (attached d rect) s g h = absurd g
  step-IsSound pressed_in s g h = zoom_at_center-IsSound n laws _ s.view h
  step-IsSound pressed_out s g h = zoom_at_center-IsSound n laws _ s.view h
  step-IsSound pressed_reset s g h = reset-IsSound n laws s.view h
  step-IsSound (wheel f m u p rect) s g h = on_wheel-IsSound f m u p rect s h
  step-IsSound (mouse_down button on_controls p) s g h = pan_start-IsSound button on_controls p s h
  step-IsSound (mouse_move p rect) s g h = pan_move-IsSound p rect s h
  step-IsSound released s g h = h
  step-IsSound (touch_start points) s g h = on_touch_start-IsSound points s h
  step-IsSound (touch_move points rect) s g h = on_touch_move-IsSound points rect s h
  step-IsSound clicked s g h = h

  run-IsSound :
      (es : List (Event n.Number)) (s : Hand n.Number)
      → All IsGesture es
      → IsSound n s.view
      → IsSound n (run n es s).view
  unfolding run
  run-IsSound [] s g h = h
  run-IsSound (e ∷ es) s (g, gs) h = run-IsSound es (step n e s) gs (step-IsSound e s g h)

-- If the numbers obey the laws that are asked for, then after a drawing was attached to a new zoom
-- and any gestures that attach none again, the view has the size of the base at the zoom level,
-- the level is from a quarter to four, and the drawing shows the view.
pub gestures-IsSound :
    (n : Numbers)
    → IsReal n
    → (d : Drawing n.Number) (rect : Rect n.Number) (es : List (Event n.Number)) → All IsGesture es
    → IsSound n (run n (attached d rect ∷ es) (new_hand n)).view
unfolding run step new_hand new_view
gestures-IsSound n laws d rect es g =
    run-IsSound n laws es _ g (attach-IsSound n laws d rect _ refl)
