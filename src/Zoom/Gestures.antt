-- ===== src/Zoom/Gestures.antt =====
-- The gestures on the graph (graph-zoom.js): the buttons, the wheel, dragging and pinching.
use pikoci.Base.{
  Bool, true, false, ◌&&◌, ◌||◌, Option, none, some, List, [], ◌∷◌, if◌then◌else◌, ℕ, ◌==◌,
  number_equality,
}
use pikoci.Zoom.Numbers.{Numbers, less, abs_of, is_falsy}
use pikoci.Zoom.View.{
  View, Rect, Drawing, attach, zoom_in, zoom_out, zoom_at_point, zoom_factor, reset, pan_by,
}

pub record Point (A : Type 0) : Type 0 where
  pub x : A
  pub y : A

-- `panStart`
pub record Pan (A : Type 0) : Type 0 where
  pub from : Point A
  pub dragged : Bool

pub record Hand (A : Type 0) : Type 0 where
  pub view : View A
  pub panning : Bool
  pub pan : Option (Pan A)
  pub pinch : Option A
  pub suppress : Bool

pub data Event (A : Type 0) : Type 0 where
  attached : Drawing A → Rect A → Event A
  pressed_in : Event A
  pressed_out : Event A
  pressed_reset : Event A
  -- in the full screen, with Ctrl or Cmd, up; the point, and where the drawing stands
  wheel : Bool → Bool → Bool → Point A → Rect A → Event A
  mouse_down : ℕ → Bool → Point A → Event A  -- the button, and whether it is on the controls
  mouse_move : Point A → Rect A → Event A
  released : Event A  -- of the mouse, or of the last finger that moved
  touch_start : List (Point A) → Event A
  touch_move : List (Point A) → Rect A → Event A
  clicked : Event A

module _ (n : Numbers) where
  unfoldable pub begin_pan : Point n.Number → Hand n.Number → Hand n.Number
  begin_pan p s = record s { panning = true; pan = some (record { from = p; dragged = false }) }

  -- `_onPanStart`
  unfoldable pub pan_start : ℕ → Bool → Point n.Number → Hand n.Number → Hand n.Number
  pan_start button on_controls p s =
      if button == 0 then (if on_controls then s else begin_pan p s) else s

  -- `Math.abs(d) > this.DRAG_THRESHOLD`
  unfoldable pub is_far : n.Number → Bool
  is_far d = less n (n.ratio 5 1) (abs_of n d)

  unfoldable pub is_dragged : Point n.Number → Pan n.Number → Bool
  is_dragged p pan = pan.dragged || (is_far (n.sub p.x pan.from.x) || is_far (n.sub p.y pan.from.y))

  -- `_onPanMove` behind its guards, and `_onTouchMove` of one finger behind the same.
  unfoldable pub drag :
      Point n.Number → Rect n.Number → Pan n.Number → Hand n.Number → Hand n.Number
  drag p rect pan s =
      if is_dragged p pan
      then record s {
        view = pan_by n rect (n.sub p.x pan.from.x) (n.sub p.y pan.from.y) s.view;
        pan = some (record { from = p; dragged = true });
      }
      else s

  -- `this.isPanning && this.svg && this.currentViewBox`
  unfoldable pub can_pan : Hand n.Number → Bool
  can_pan s = s.panning && (s.view.has_svg && elim s.view.current [ none ↦ false | some c ↦ true ])

  unfoldable pub drag_from :
      Option (Pan n.Number) → Point n.Number → Rect n.Number → Hand n.Number → Hand n.Number
  drag_from none p rect s = s
  drag_from (some pan) p rect s = drag p rect pan s

  unfoldable pub pan_move : Point n.Number → Rect n.Number → Hand n.Number → Hand n.Number
  pan_move p rect s = if can_pan s then drag_from s.pan p rect s else s

  unfoldable pub was_dragged : Hand n.Number → Bool
  was_dragged s = elim s.pan [ none ↦ false | some pan ↦ s.panning && pan.dragged ]

  -- `_onPanEnd`
  unfoldable pub pan_end : Hand n.Number → Hand n.Number
  pan_end s = record s {
    suppress = was_dragged s || s.suppress;
    panning = false;
    pan = none;
    pinch = none;
  }

  -- `_getPinchDist`
  unfoldable pub pinch_distance : Point n.Number → Point n.Number → n.Number
  pinch_distance p q =
      let dx = n.sub p.x q.x in let dy = n.sub p.y q.y in n.sqrt (n.add (n.mul dx dx) (n.mul dy dy))

  unfoldable pub pinch_move :
      Point n.Number → Point n.Number → Rect n.Number → n.Number → Hand n.Number → Hand n.Number
  pinch_move p q rect start s =
      let distance = pinch_distance p q in
      let middle = λ (a b : n.Number). n.div (n.add a b) (n.ratio 2 1) in
      record s {
        view = zoom_at_point n rect (middle p.x q.x) (middle p.y q.y) (n.div distance start) s.view;
        pinch = some distance;
      }

  -- `_onTouchStart`
  unfoldable pub on_touch_start : List (Point n.Number) → Hand n.Number → Hand n.Number
  on_touch_start [] s = s
  on_touch_start (p ∷ []) s = begin_pan p s
  on_touch_start (p ∷ q ∷ []) s = record s { pinch = some (pinch_distance p q) }
  on_touch_start (p ∷ q ∷ r ∷ rest) s = s

  -- `_onTouchMove`
  unfoldable pub on_touch_move :
      List (Point n.Number) → Rect n.Number → Hand n.Number → Hand n.Number
  on_touch_move [] rect s = s
  on_touch_move (p ∷ []) rect s = pan_move p rect s
  on_touch_move (p ∷ q ∷ []) rect s = elim s.pinch [
    | none ↦ s
    | some start ↦ if is_falsy n start then s else pinch_move p q rect start s
  ]
  on_touch_move (p ∷ q ∷ r ∷ rest) rect s = s

  -- `_onWheel`
  unfoldable pub on_wheel :
      Bool → Bool → Bool → Point n.Number → Rect n.Number → Hand n.Number → Hand n.Number
  on_wheel fullscreen modified up p rect s =
      let factor = if up then zoom_factor n else n.div (n.ratio 1 1) (zoom_factor n) in
      if s.view.has_svg && (fullscreen || modified)
      then record s { view = zoom_at_point n rect p.x p.y factor s.view }
      else s

  -- The listener of clicks: whether the click goes no further, and the state after it.
  unfoldable pub on_click : Hand n.Number → Bool × Hand n.Number
  on_click s = (s.suppress, record s { suppress = false })

  unfoldable pub step : Event n.Number → Hand n.Number → Hand n.Number
  step (attached d rect) s = record s { view = attach n d rect s.view }
  step pressed_in s = record s { view = zoom_in n s.view }
  step pressed_out s = record s { view = zoom_out n s.view }
  step pressed_reset s = record s { view = reset n s.view }
  step (wheel fullscreen modified up p rect) s = on_wheel fullscreen modified up p rect s
  step (mouse_down button on_controls p) s = pan_start button on_controls p s
  step (mouse_move p rect) s = pan_move p rect s
  step released s = pan_end s
  step (touch_start points) s = on_touch_start points s
  step (touch_move points rect) s = on_touch_move points rect s
  step clicked s = (on_click s).1

  unfoldable pub run : List (Event n.Number) → Hand n.Number → Hand n.Number
  run [] s = s
  run (e ∷ es) s = run es (step e s)

  -- The constructor of `PikoGraphZoom`.
  unfoldable pub new_view : View n.Number
  new_view = record {
    has_svg = false;
    base = none;
    current = none;
    level = n.ratio 1 1;
    shown = none;
  }

  unfoldable pub new_hand : Hand n.Number
  new_hand = record { view = new_view; panning = false; pan = none; pinch = none; suppress = false }
