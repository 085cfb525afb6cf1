-- ===== src/Zoom/Screen.antt =====
-- The full screen of the graph (graph-zoom.js): which elements stand where. An element is a number;
-- the drawing and the legend have two different parents, each with its children in order.
use pikoci.Base.{
  ℕ, suc, ◌-◌, Bool, true, false, not, Option, none, some, List, [], ◌∷◌, ◌++◌, filter,
  if◌then◌else◌, ◌==◌, number_equality, contains,
}

-- `insertBefore` and `appendChild`, which take an element from where it stood; `none` where the next
-- element is no child, and the browser throws.
unfoldable pub remove : ℕ → List ℕ → List ℕ
remove x children = filter (λ y. not (y == x)) children

unfoldable pub next_of : ℕ → List ℕ → Option ℕ
next_of x [] = none
next_of x (y ∷ ys) = if y == x then elim ys [ [] ↦ none | z ∷ _ ↦ some z ] else next_of x ys

unfoldable pub put_before : ℕ → ℕ → List ℕ → List ℕ
put_before next x [] = []
put_before next x (y ∷ ys) = if y == next then x ∷ y ∷ ys else y ∷ put_before next x ys

unfoldable pub insert_back : Option ℕ → ℕ → List ℕ → Option (List ℕ)
insert_back none x children = some (remove x children ++ x ∷ [])
insert_back (some next) x children =
    let rest = remove x children in
    if contains rest next then some (put_before next x rest) else none

pub record Screen : Type 0 where
  pub svg : Option ℕ
  pub home : List ℕ  -- the children of the drawing's parent
  pub legend : Option ℕ
  pub legend_home : List ℕ
  pub overlay : Bool
  pub svg_next : Option (Option ℕ)  -- `_svgNextSibling`, once `_svgParent` is set
  pub legend_next : Option (Option ℕ)
  pub controls : Bool
  pub listeners : ℕ  -- of the Escape key
  pub reports : List Bool  -- what `onFullscreenChange` was called with

-- The legend goes into the overlay, if there is one.
unfoldable pub take_legend : Screen → Screen
take_legend s = elim s.legend [
  | none ↦ s
  | some l ↦ record s {
    legend_home = remove l s.legend_home;
    legend_next = some (next_of l s.legend_home);
  }
]

-- `_enterFullscreen`
unfoldable pub enter : Screen → Screen
enter s = elim s.svg [
  | none ↦ s
  | some d ↦ record (take_legend s) {
    home = remove d s.home;
    svg_next = some (next_of d s.home);
    overlay = true;
    listeners = suc s.listeners;
    controls = false;
    reports = s.reports ++ true ∷ [];
  }
]

unfoldable pub return_svg : Screen → Option (List ℕ)
return_svg s = elim s.svg_next [
  | none ↦ some s.home
  | some next ↦ elim s.svg [ none ↦ some s.home | some d ↦ insert_back next d s.home ]
]

unfoldable pub return_legend : Screen → Option (List ℕ)
return_legend s = elim s.legend_next [
  | none ↦ some s.legend_home
  | some next ↦ elim s.legend [
    | none ↦ some s.legend_home
    | some l ↦ insert_back next l s.legend_home
  ]
]

-- `_exitFullscreen`; `none` where it throws on the way.
unfoldable pub exit : Screen → Option Screen
exit s =
    let leave = λ (home legend_home : List ℕ). record s {
      home = home;
      legend_home = legend_home;
      legend_next = none;
      overlay = false;
      listeners = s.listeners - 1;
      controls = true;
      reports = s.reports ++ false ∷ [];
    } in
    if s.overlay
    then elim (return_svg s) [
      | none ↦ none
      | some home ↦ elim (return_legend s) [
        | none ↦ none
        | some legend_home ↦ some (leave home legend_home)
      ]
    ]
    else some s

-- `toggleFullscreen`
unfoldable pub toggle : Screen → Option Screen
toggle s = if s.overlay then exit s else some (enter s)
