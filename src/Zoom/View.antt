-- ===== src/Zoom/View.antt =====
-- The view box of the graph (graph-zoom.js): how the drawing is attached, zoomed and moved.
use pikoci.Base.{Bool, true, false, not, ◌&&◌, Option, none, some, if◌then◌else◌}
use pikoci.Zoom.Numbers.{Numbers, less, min_of, max_of, zero_of, is_falsy}

pub record Box (A : Type 0) : Type 0 where
  pub x : A
  pub y : A
  pub w : A
  pub h : A

-- `getBoundingClientRect`
pub record Rect (A : Type 0) : Type 0 where
  pub left : A
  pub top : A
  pub width : A
  pub height : A

-- What the zoom keeps of the drawing; `shown` is the attribute `viewBox` of the drawing.
pub record View (A : Type 0) : Type 0 where
  pub has_svg : Bool
  pub base : Option (Box A)
  pub current : Option (Box A)
  pub level : A
  pub shown : Option (Box A)

-- The attributes of a drawing that is attached: `none` where `parseFloat` gives NaN, and where there
-- is no `viewBox`.
pub record Drawing (A : Type 0) : Type 0 where
  pub width : Option A
  pub height : Option A
  pub view_box : Option (Option A × Option A)

module _ (n : Numbers) where
  unfoldable pub min_zoom : n.Number
  min_zoom = n.ratio 25 100

  unfoldable pub max_zoom : n.Number
  max_zoom = n.ratio 4 1

  unfoldable pub zoom_factor : n.Number
  zoom_factor = n.ratio 115 100

  -- `a || b`, for a number that may be NaN
  unfoldable pub or_number : Option n.Number → n.Number → n.Number
  or_number none b = b
  or_number (some a) b = if is_falsy n a then b else a

  unfoldable pub is_number : Option n.Number → Bool
  is_number none = false
  is_number (some a) = not (is_falsy n a)

  -- The width and the height, before `|| 800` and `|| 400`.
  unfoldable pub size_of : Drawing n.Number → Option n.Number × Option n.Number
  size_of d =
      if is_number d.width && is_number d.height
      then (d.width, d.height)
      else elim d.view_box [ none ↦ (d.width, d.height) | some parts ↦ parts ]

  -- The part that is seen at first: the natural size, or more where the place is much larger.
  unfoldable pub fit : n.Number → n.Number → Rect n.Number → Box n.Number
  fit nat_w nat_h rect =
      let c_w = or_number (some rect.width) nat_w in
      let c_h = or_number (some rect.height) nat_h in
      let scale = min_of n (n.div c_w nat_w) (n.div c_h nat_h) in
      let large = less n (n.ratio 15 10) scale in
      let vb_w = if large then n.div c_w (n.ratio 15 10) else nat_w in
      let vb_h = if large then n.div c_h (n.ratio 15 10) else nat_h in
      let half = λ (a : n.Number). n.div (n.sub (zero_of n) a) (n.ratio 2 1) in
      record { x = half (n.sub vb_w nat_w); y = half (n.sub vb_h nat_h); w = vb_w; h = vb_h }

  -- `attachSVG`; `rect` is where the container stands.
  unfoldable pub attach : Drawing n.Number → Rect n.Number → View n.Number → View n.Number
  attach d rect v =
      let size = size_of d in
      let box = fit (or_number size.0 (n.ratio 800 1)) (or_number size.1 (n.ratio 400 1)) rect in
      elim v.current [
        | none ↦ record {
          has_svg = true;
          base = some box;
          current = some box;
          level = n.ratio 1 1;
          shown = some box;
        }
        | some c ↦ record v { has_svg = true; base = some box; shown = some c }
      ]

  -- `_applyViewBox`
  unfoldable pub apply_view_box : View n.Number → View n.Number
  apply_view_box v =
      if v.has_svg then elim v.current [ none ↦ v | some c ↦ record v { shown = some c } ] else v

  unfoldable pub clamp : n.Number → n.Number
  clamp z = max_of n min_zoom (min_of n max_zoom z)

  -- The new view of `_zoomAtCenter`, where there are a current one and a base.
  unfoldable pub centered : n.Number → Box n.Number → Box n.Number → View n.Number → View n.Number
  centered factor b c v =
      let z = clamp (n.mul v.level factor) in
      let new_w = n.div b.w z in
      let new_h = n.div b.h z in
      let half = λ (a : n.Number). n.div a (n.ratio 2 1) in
      record v {
        current = some (record {
          x = n.sub (n.add c.x (half c.w)) (half new_w);
          y = n.sub (n.add c.y (half c.h)) (half new_h);
          w = new_w;
          h = new_h;
        });
        level = z;
      }

  unfoldable pub zoom_at_center : n.Number → View n.Number → View n.Number
  zoom_at_center factor v = elim v.current [
    | none ↦ v
    | some c ↦ elim v.base [ none ↦ v | some b ↦ apply_view_box (centered factor b c v) ]
  ]

  unfoldable pub zoom_in : View n.Number → View n.Number
  zoom_in = zoom_at_center zoom_factor

  unfoldable pub zoom_out : View n.Number → View n.Number
  zoom_out = zoom_at_center (n.div (n.ratio 1 1) zoom_factor)

  -- The place of a point of the page in the drawing's rectangle, from nought to one.
  unfoldable pub share_x : Rect n.Number → n.Number → n.Number
  share_x rect client_x = n.div (n.sub client_x rect.left) rect.width

  unfoldable pub share_y : Rect n.Number → n.Number → n.Number
  share_y rect client_y = n.div (n.sub client_y rect.top) rect.height

  -- The new view of `zoomAtPoint`, at the shares `px` and `py`.
  unfoldable pub zoomed :
      n.Number → n.Number → n.Number → Box n.Number → Box n.Number → View n.Number → View n.Number
  zoomed px py factor b c v =
      let z = clamp (n.mul v.level factor) in
      let new_w = n.div b.w z in
      let new_h = n.div b.h z in
      record v {
        current = some (record {
          x = n.sub (n.add c.x (n.mul px c.w)) (n.mul px new_w);
          y = n.sub (n.add c.y (n.mul py c.h)) (n.mul py new_h);
          w = new_w;
          h = new_h;
        });
        level = z;
      }

  -- `zoomAtPoint`; `rect` is where the drawing stands.
  unfoldable pub zoom_at_point :
      Rect n.Number → n.Number → n.Number → n.Number → View n.Number → View n.Number
  zoom_at_point rect client_x client_y factor v =
      let px = share_x rect client_x in
      let py = share_y rect client_y in
      elim v.current [
        | none ↦ v
        | some c ↦ elim v.base [
          | none ↦ v
          | some b ↦ if v.has_svg then apply_view_box (zoomed px py factor b c v) else v
        ]
      ]

  unfoldable pub reset : View n.Number → View n.Number
  reset v = elim v.base [
    | none ↦ v
    | some b ↦ apply_view_box (record v { current = some b; level = n.ratio 1 1 })
  ]

  -- `vb.x -= dx / rect.width * vb.w`, and the same for y, on the box that is current.
  unfoldable pub pan_by : Rect n.Number → n.Number → n.Number → View n.Number → View n.Number
  pan_by rect dx dy v = elim v.current [
    | none ↦ v
    | some c ↦ apply_view_box (record v {
      current = some (record c {
        x = n.sub c.x (n.mul (n.div dx rect.width) c.w);
        y = n.sub c.y (n.mul (n.div dy rect.height) c.h);
      });
    })
  ]
