-- ===== src/Zoom/Bounds.antt =====
-- The view stays sound under every gesture (graph-zoom.js).
use pikoci.Base.{
  Bool, true, false, Option, none, some, ◌≡◌, refl, sym, inl, inr, if◌then◌else◌, Bool-cases, arith,
  number_equality,
}
use pikoci.Zoom.Numbers.{Numbers, IsReal, min_of, max_of}
use pikoci.Zoom.View.{
  Box, View, Rect, Drawing, attach, min_zoom, max_zoom, clamp, apply_view_box, centered,
  zoom_at_center, zoomed, zoom_at_point, reset, pan_by,
}

module _ (n : Numbers) where
  -- The box has the size of the base at the zoom level.
  abbrev pub IsScaled : Box n.Number → n.Number → Box n.Number → Type 0
  IsScaled b level c = (c.w ≡ n.div b.w level) × (c.h ≡ n.div b.h level)

  abbrev pub IsFit : Option (Box n.Number) → n.Number → Option (Box n.Number) → Type 0
  IsFit none level none = Unit
  IsFit none level (some c) = ⊥
  IsFit (some b) level none = ⊥
  IsFit (some b) level (some c) = IsScaled b level c

  abbrev pub IsWithin : n.Number → Type 0
  IsWithin level = (n.at_most (min_zoom n) level ≡ true) × (n.at_most level (max_zoom n) ≡ true)

  -- The size of the view follows the zoom level, which is within its bounds, and the drawing shows it.
  abbrev pub IsSound : View n.Number → Type 0
  IsSound v =
      IsFit v.base v.level v.current × IsWithin v.level × (v.has_svg ≡ true → v.shown ≡ v.current)

  module _ (laws : IsReal n) where
    pub min_of-at_most : (a b : n.Number) → n.at_most (min_of n a b) a ≡ true
    unfolding min_of
    min_of-at_most a b = elim (Bool-cases (n.at_most a b)) [
      | inl e ↦ rw e (laws.at_most_refl a)
      | inr e ↦ rw e (laws.at_most_total a b e)
    ]

    pub clamp-IsWithin : (z : n.Number) → IsWithin (clamp n z)
    unfolding clamp max_of min_zoom max_zoom
    clamp-IsWithin z = elim (Bool-cases (n.at_most (min_zoom n) (min_of n (max_zoom n) z))) [
      | inl e ↦ rw e (e, min_of-at_most (max_zoom n) z)
      | inr e ↦ rw e (laws.at_most_refl (min_zoom n), laws.quarter_four)
    ]

    applied :
        (v : View n.Number) (c : Box n.Number)
        → IsFit v.base v.level (some c)
        → IsWithin v.level
        → IsSound (apply_view_box n (record v { current = some c }))
    unfolding apply_view_box
    applied v c fit within = elim (Bool-cases v.has_svg) [
      | inl e ↦ rw e (fit, within, λ _. refl)
      | inr e ↦ rw e (fit, within, λ h. absurd (ground (arith, h)))
    ]

    either-IsSound :
        (b : Bool) (u v : View n.Number) → IsSound u → IsSound v → IsSound (if b then u else v)
    either-IsSound true u v h k = h
    either-IsSound false u v h k = k

    centered-IsSound :
        (factor : n.Number) (b c : Box n.Number) (v : View n.Number)
        → IsSound (apply_view_box n (centered n factor b c (record v { base = some b })))
    unfolding centered
    centered-IsSound factor b c v =
        applied (record v { base = some b; level = clamp n (n.mul v.level factor) }) _ (refl, refl)
          (clamp-IsWithin _)

    zoomed-IsSound :
        (px py factor : n.Number) (b c : Box n.Number) (v : View n.Number)
        → IsSound (apply_view_box n (zoomed n px py factor b c (record v { base = some b })))
    unfolding zoomed
    zoomed-IsSound px py factor b c v =
        applied (record v { base = some b; level = clamp n (n.mul v.level factor) }) _ (refl, refl)
          (clamp-IsWithin _)

    zoom_at_center_parts :
        (factor : n.Number) (base current : Option (Box n.Number)) (v : View n.Number)
        → IsSound (record v { base = base; current = current })
        → IsSound (zoom_at_center n factor (record v { base = base; current = current }))
    unfolding zoom_at_center
    zoom_at_center_parts factor none none v h = h
    zoom_at_center_parts factor none (some c) v h = h
    zoom_at_center_parts factor (some b) none v h = h
    zoom_at_center_parts factor (some b) (some c) v h =
        centered-IsSound factor b c (record v { current = some c })

    pub zoom_at_center-IsSound :
        (factor : n.Number) (v : View n.Number) → IsSound v → IsSound (zoom_at_center n factor v)
    zoom_at_center-IsSound factor v h = zoom_at_center_parts factor v.base v.current v h

    zoom_at_point_parts :
        (rect : Rect n.Number) (x y factor : n.Number) (base current : Option (Box n.Number))
        (v : View n.Number)
        → IsSound (record v { base = base; current = current })
        → IsSound (zoom_at_point n rect x y factor (record v { base = base; current = current }))
    unfolding zoom_at_point
    zoom_at_point_parts rect x y factor none none v h = h
    zoom_at_point_parts rect x y factor none (some c) v h = h
    zoom_at_point_parts rect x y factor (some b) none v h = h
    zoom_at_point_parts rect x y factor (some b) (some c) v h =
        either-IsSound v.has_svg _ _ (zoomed-IsSound _ _ factor b c (record v { current = some c }))
          h

    pub zoom_at_point-IsSound :
        (rect : Rect n.Number) (x y factor : n.Number) (v : View n.Number)
        → IsSound v
        → IsSound (zoom_at_point n rect x y factor v)
    zoom_at_point-IsSound rect x y factor v h =
        zoom_at_point_parts rect x y factor v.base v.current v h

    reset_parts :
        (base : Option (Box n.Number)) (v : View n.Number)
        → IsSound (record v { base = base })
        → IsSound (reset n (record v { base = base }))
    unfolding reset min_zoom max_zoom
    reset_parts none v h = h
    reset_parts (some b) v h =
        applied (record v { base = some b; level = n.ratio 1 1 }) b
          (sym (laws.div_one b.w), sym (laws.div_one b.h)) (laws.quarter_one, laws.one_four)

    pub reset-IsSound : (v : View n.Number) → IsSound v → IsSound (reset n v)
    reset-IsSound v h = reset_parts v.base v h

    pan_by_parts :
        (rect : Rect n.Number) (dx dy : n.Number) (base current : Option (Box n.Number))
        (v : View n.Number)
        → IsSound (record v { base = base; current = current })
        → IsSound (pan_by n rect dx dy (record v { base = base; current = current }))
    unfolding pan_by
    pan_by_parts rect dx dy none none v h = h
    pan_by_parts rect dx dy none (some c) v h = absurd h.0
    pan_by_parts rect dx dy (some b) none v h = h
    pan_by_parts rect dx dy (some b) (some c) v h =
        applied (record v { base = some b; current = some c }) _ h.0 h.1

    pub pan_by-IsSound :
        (rect : Rect n.Number) (dx dy : n.Number) (v : View n.Number)
        → IsSound v
        → IsSound (pan_by n rect dx dy v)
    pan_by-IsSound rect dx dy v h = pan_by_parts rect dx dy v.base v.current v h

    pub attach-IsSound :
        (d : Drawing n.Number) (rect : Rect n.Number) (v : View n.Number)
        → v.current ≡ none
        → IsSound (attach n d rect v)
    unfolding attach min_zoom max_zoom
    attach-IsSound d rect v e =
        rw e (
          (sym (laws.div_one _), sym (laws.div_one _)),
          (laws.quarter_one, laws.one_four),
          λ _. refl,
        )
