-- ===== src/Zoom/Siblings.antt =====
-- An element that is taken from its parent and put back stands where it stood (graph-zoom.js).
use pikoci.Base.{
  ℕ, suc, ◌-◌, true, false, not, ◌≡◌, refl, sym, ap, ◌∙◌, inl, inr, Option, none, some, List, [],
  ◌∷◌, ◌++◌, ◌==◌, ==_iff, ==_refl, number_equality, contains, contains-filter, IsDistinct,
  Bool-cases, arith,
}
use pikoci.Zoom.Screen.{
  remove, next_of, put_before, insert_back, Screen, take_legend, enter, return_svg, return_legend,
  exit,
}

remove_absent : (x : ℕ) (ys : List ℕ) → contains ys x ≡ false → remove x ys ≡ ys
unfolding remove contains
remove_absent x [] h = refl
remove_absent x (y ∷ ys) h = ground (arith, remove_absent x ys)

-- What follows an element is there too, and is another one.
next_of-contains : (x z : ℕ) (ys : List ℕ) → next_of x ys ≡ some z → contains ys z ≡ true
unfolding next_of contains
next_of-contains x z [] h = ground (arith, h)
next_of-contains x z (y ∷ []) h = ground (arith, h)
next_of-contains x z (y ∷ w ∷ ys) h = ground (arith, h, next_of-contains x z (w ∷ ys))

next_of-ne : (x z : ℕ) (ys : List ℕ) → IsDistinct ys → next_of x ys ≡ some z → (z == x) ≡ false
unfolding next_of contains
next_of-ne x z [] d h = ground (arith, h)
next_of-ne x z (y ∷ []) d h = ground (arith, h)
next_of-ne x z (y ∷ w ∷ ys) d h = ground (arith, h, d, next_of-ne x z (w ∷ ys) d.1)

-- The element back in the list, before the next one or at the end.
abbrev put : Option ℕ → ℕ → List ℕ → List ℕ
put none x ys = ys ++ x ∷ []
put (some z) x ys = put_before z x ys

put_first : (x : ℕ) (ys : List ℕ) → put (elim ys [ [] ↦ none | z ∷ _ ↦ some z ]) x ys ≡ x ∷ ys
unfolding put_before
put_first x [] = refl
put_first x (z ∷ ys) = rw (==_refl z) refl

put_later :
    (o : Option ℕ) (x y : ℕ) (ys : List ℕ)
    → ((z : ℕ) → o ≡ some z → (y == z) ≡ false)
    → put o x (y ∷ ys) ≡ y ∷ put o x ys
unfolding put_before
put_later none x y ys h = refl
put_later (some z) x y ys h = rw (h z refl) refl

other : (y z : ℕ) (ys : List ℕ) → contains ys y ≡ false → contains ys z ≡ true → (y == z) ≡ false
other y z ys h k = elim (Bool-cases (y == z)) [
  | inl e ↦ absurd (ground (arith, sym h ∙ (ap (contains ys) ((==_iff y z).0 e) ∙ k)))
  | inr e ↦ e
]

put-remove :
    (x : ℕ) (ys : List ℕ)
    → IsDistinct ys
    → contains ys x ≡ true
    → put (next_of x ys) x (remove x ys) ≡ ys
unfolding next_of remove contains
put-remove x [] d h = absurd (ground (arith, h))
put-remove x (y ∷ ys) d h = elim (Bool-cases (y == x)) [
  | inl e ↦ rw e (
      ap (put (elim ys [ [] ↦ none | z ∷ _ ↦ some z ]) x)
        (remove_absent x ys (ap (contains ys) (sym ((==_iff y x).0 e)) ∙ d.0))
      ∙ (put_first x ys ∙ ap (λ q. q ∷ ys) (sym ((==_iff y x).0 e))))
  | inr e ↦ rw e (
      put_later (next_of x ys) x y (remove x ys)
        (λ z k. other y z ys d.0 (next_of-contains x z ys k))
      ∙ ap (λ q. y ∷ q) (put-remove x ys d.1 (ground (arith, h, e))))
]

insert_back-put :
    (o : Option ℕ) (x : ℕ) (rest : List ℕ)
    → remove x rest ≡ rest
    → ((z : ℕ) → o ≡ some z → contains rest z ≡ true)
    → insert_back o x rest ≡ some (put o x rest)
unfolding insert_back
insert_back-put none x rest e h = rw e refl
insert_back-put (some z) x rest e h = rw (e, h z refl) refl

remove-not_contains : (x : ℕ) (ys : List ℕ) → contains (remove x ys) x ≡ false
unfolding remove
remove-not_contains x ys = contains-filter (λ y. not (y == x)) ys x ∙ rw (==_refl x) (ground arith)

remove-contains :
    (x z : ℕ) (ys : List ℕ)
    → contains ys z ≡ true
    → (z == x) ≡ false
    → contains (remove x ys) z ≡ true
unfolding remove
remove-contains x z ys h k = contains-filter (λ y. not (y == x)) ys z ∙ rw (h, k) refl

put_back :
    (x : ℕ) (ys : List ℕ)
    → IsDistinct ys
    → contains ys x ≡ true
    → insert_back (next_of x ys) x (remove x ys) ≡ some ys
put_back x ys d h =
    insert_back-put (next_of x ys) x (remove x ys)
      (remove_absent x (remove x ys) (remove-not_contains x ys))
      (λ z e. remove-contains x z ys (next_of-contains x z ys e) (next_of-ne x z ys d e))
    ∙ ap some (put-remove x ys d h)

pred_suc : (k : ℕ) → suc k - 1 ≡ k
pred_suc k = omega arith

-- The element, if there is one, is a child, and no child stands twice.
abbrev pub IsPlaced : Option ℕ → List ℕ → Type 0
IsPlaced none children = Unit
IsPlaced (some x) children = IsDistinct children × (contains children x ≡ true)

-- The screen as it is outside the full screen, with the drawing `d`.
abbrev pub at_rest : ℕ → Option ℕ → Screen → Screen
at_rest d legend s = record s {
  svg = some d;
  legend = legend;
  overlay = false;
  legend_next = none;
  controls = true;
}

-- If the drawing is a child of its parent, the legend, if there is one, of another, and no child
-- stands twice, then leaving the full screen does not throw and puts both back between the same
-- neighbours, takes the overlay and the listener of Escape away and shows the controls.
pub exit-enter :
    (d : ℕ) (legend : Option ℕ) (s : Screen)
    → IsPlaced (some d) s.home
    → IsPlaced legend s.legend_home
    → exit (enter (at_rest d legend s))
      ≡ some (record (at_rest d legend s) {
        svg_next = some (next_of d s.home);
        reports = (s.reports ++ true ∷ []) ++ false ∷ [];
      })
unfolding exit enter take_legend return_svg return_legend
exit-enter d none s h k = rw (put_back d s.home h.0 h.1, pred_suc s.listeners) refl
exit-enter d (some l) s h k =
    rw (put_back d s.home h.0 h.1, put_back l s.legend_home k.0 k.1, pred_suc s.listeners) refl
