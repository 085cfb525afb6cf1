-- ===== src/ListView/Depth.antt =====
-- How deep the rows of the list view go (components/PipelineListView.js): every call of
-- `renderChildren` in another stands behind a new mark, so the names bound the depth.
use pikoci.Base.{
  ℕ, zero, suc, ◌+◌, ◌-◌, ◌≤◌, ◌<◌, String, Bool, true, false, ◌≡◌, refl, ap, ◌∙◌, inl, inr, List,
  [], ◌∷◌, ◌++◌, All, length, contains, All-append, text_equality, ◌==◌, ==_iff, ==_refl,
  if◌then◌else◌, Bool-cases, arith, filter,
}
use pikoci.Tree.{Tree, links_of}
use pikoci.ListView.Rows.{
  Line, header, Drawn, mark, mark_all, FanIn, fan_in, Next, with_below, parent_rows, kid_rows,
  section, member_rows, parallel_group, Groups, add_kid, group_kids, group_key, unmarked,
  draw_group, draw_groups, draw_below, children_rows, tree_rows,
}
use pikoci.ListView.Count.{marked, marked-mark, marked-mark_all}
use pikoci.ListView.Growth.{
  IsBelow, mark-IsBelow, mark_all-IsBelow, fan_in-IsBelow, IsGrowing, with_below-IsBelow,
  with_mark-IsBelow, parent_rows-IsBelow, section-IsBelow, draw_group-IsBelow, draw_groups-IsBelow,
  children_rows-IsGrowing,
}

-- How many of the names are not marked.
abbrev pub free : List String → List String → ℕ
free [] m = 0
free (u ∷ names) m = (1 - marked u m) + free names m

free_mono : (names m n : List String) → IsBelow m n → free names n ≤ free names m
free_mono [] m n h = omega arith
free_mono (u ∷ names) m n h = omega (arith, h u, free_mono names m n h)

free_less :
    (names m n : List String) (k : String)
    → IsBelow m n
    → contains names k ≡ true
    → marked k m ≡ 0
    → 1 ≤ marked k n
    → free names n < free names m
unfolding contains
free_less [] m n k h c a b = absurd (ground (arith, c))
free_less (u ∷ names) m n k h c a b = elim (Bool-cases (u == k)) [
  | inl e ↦
      let same = (==_iff u k).0 e in
      omega
        (arith, free_mono names m n h, ap (λ q. marked q m) same, ap (λ q. marked q n) same, a, b)
  | inr e ↦ omega (arith, h u, free_less names m n k h (ground (arith, c, e)) a b)
]

-- One part drawn behind another.
abbrev then_draw : Drawn → (List String → Drawn) → Drawn
then_draw d rest = record { lines = d.lines ++ (rest d.marks).lines; marks = (rest d.marks).marks }

then_draw_eq :
    (d e : Drawn) (f g : List String → Drawn)
    → d ≡ e
    → f d.marks ≡ g d.marks
    → then_draw d f ≡ then_draw e g
then_draw_eq d e f g p q =
    ap (λ r. record { lines = d.lines ++ r.lines; marks = r.marks }) q ∙ ap (λ x. then_draw x g) p

module _ (names : List String) (bound : ℕ) (f g : Next) (grows : IsGrowing f)
    (agree : (ps m : List String) → free names m < bound → f ps m ≡ g ps m) where
  -- Behind a call, still less than the bound is free.
  later : (m n : List String) → IsBelow m n → free names m < bound → free names n < bound
  later m n h k = omega (arith, free_mono names m n h, k)

  with_below_eq :
      (n : String) (m : List String) → free names m < bound → with_below f n m ≡ with_below g n m
  unfolding with_below
  with_below_eq n m h = rw (agree (n ∷ []) m h) refl

  with_mark_eq :
      (n : String) (m : List String)
      → free names m < bound
      → with_below f n (mark n m) ≡ with_below g n (mark n m)
  with_mark_eq n m h = with_below_eq n (mark n m) (later m (mark n m) (mark-IsBelow n m) h)

  parent_rows_eq :
      (ns m : List String) → free names m < bound → parent_rows f ns m ≡ parent_rows g ns m
  unfolding parent_rows
  parent_rows_eq [] m h = refl
  parent_rows_eq (n ∷ ns) m h =
      then_draw_eq _ _ (parent_rows f ns) (parent_rows g ns) (with_mark_eq n m h)
        (parent_rows_eq ns _ (later m _ (with_mark-IsBelow f grows n m) h))

  kid_rows_eq : (ns m : List String) → free names m < bound → kid_rows f ns m ≡ kid_rows g ns m
  unfolding kid_rows
  kid_rows_eq [] m h = refl
  kid_rows_eq (n ∷ ns) m h =
      then_draw_eq _ _ (kid_rows f ns) (kid_rows g ns) (with_below_eq n m h)
        (kid_rows_eq ns _ (later m _ (with_below-IsBelow f grows n m) h))

  section_eq :
      (ns : List String) (x : FanIn) → free names x.marks < bound → section f ns x ≡ section g ns x
  unfolding section
  section_eq ns x h =
      then_draw_eq _ _ (kid_rows f x.kids) (kid_rows g x.kids)
        (parent_rows_eq (filter (contains x.parents) ns) x.marks h)
        (kid_rows_eq x.kids _ (
          later x.marks _ (parent_rows-IsBelow f grows (filter (contains x.parents) ns) x.marks) h))

  member_rows_eq :
      (parents : List String) (inner : List Line) (inserted : Bool) (ns m : List String)
      → free names m < bound
      → member_rows f parents inner inserted ns m ≡ member_rows g parents inner inserted ns m
  unfolding member_rows
  member_rows_eq parents inner inserted [] m h = refl
  member_rows_eq parents inner inserted (n ∷ ns) m h = elim (Bool-cases (contains parents n)) [
    | inl e ↦ rw e (
        ap (λ r. record { lines = (if inserted then [] else inner) ++ r.lines; marks = r.marks })
          (member_rows_eq parents inner true ns m h))
    | inr e ↦ rw e (
        then_draw_eq _ _ (member_rows f parents inner inserted ns)
          (member_rows g parents inner inserted ns) (with_mark_eq n m h)
          (member_rows_eq parents inner inserted ns _
            (later m _ (with_mark-IsBelow f grows n m) h)))
  ]

  module _ (precedes : String → String → Bool) (t : Tree) where
    after_section : List String → FanIn → Drawn → Next → Drawn
    after_section ns x s next =
        let m = member_rows next x.parents s.lines false ns s.marks in
        record { lines = header (group_key precedes ns) ∷ m.lines; marks = m.marks }

    parallel_group_eq :
        (ns m : List String)
        → free names m < bound
        → parallel_group precedes t f ns m ≡ parallel_group precedes t g ns m
    unfolding parallel_group after_section
    parallel_group_eq ns m h =
        let x = fan_in t ns ns (record { kids = []; parents = []; marks = m }) in
        let k : free names x.marks < bound =
          later m x.marks (fan_in-IsBelow t ns ns (record { kids = []; parents = []; marks = m }))
            h in
        ap (λ r. record { lines = header (group_key precedes ns) ∷ r.lines; marks = r.marks })
          (member_rows_eq x.parents (section f ns x).lines false ns _
            (later x.marks _ (section-IsBelow f grows ns x) k))
        ∙ ap (λ s. after_section ns x s g) (section_eq ns x k)

    -- The names of a group are among those counted, and not marked.
    abbrev IsNew : List String → List String → Type 0
    IsNew m ns = All (λ n. (contains names n ≡ true) × (marked n m ≡ 0)) ns

    draw_group_eq :
        (ns m : List String)
        → IsNew m ns
        → free names m < suc bound
        → draw_group precedes t f ns m ≡ draw_group precedes t g ns m
    unfolding draw_group
    draw_group_eq [] m new h = refl
    draw_group_eq (n ∷ []) m (new, _) h =
        let hit_n : 1 ≤ marked n (mark n m) = ground (arith, (marked-mark n n m).1, ==_refl n) in
        with_below_eq n (mark n m)
          (omega (arith, free_less names m (mark n m) n (mark-IsBelow n m) new.0 new.1 hit_n, h))
    draw_group_eq (a ∷ b ∷ rest) m (new, _) h =
        let ns = a ∷ b ∷ rest in
        let hit_a : 1 ≤ marked a (mark_all ns m) =
          (marked-mark_all a ns m).1 (ground (arith, ==_refl a)) in
        parallel_group_eq ns (mark_all ns m) (
          omega (
            arith,
            free_less names m (mark_all ns m) a (mark_all-IsBelow ns m) new.0 new.1 hit_a,
            h,
          ))

    abbrev IsIn : List String → Type 0
    IsIn = All (λ n. contains names n ≡ true)

    unmarked-IsNew : (m ns : List String) → IsIn ns → IsNew m (unmarked m ns)
    unfolding unmarked marked
    unmarked-IsNew m [] h = tt
    unmarked-IsNew m (n ∷ ns) (c, h) = elim (Bool-cases (contains m n)) [
      | inl e ↦ rw e (unmarked-IsNew m ns h)
      | inr e ↦ rw e ((c, ground (arith, e)), unmarked-IsNew m ns h)
    ]

    abbrev AreIn : Groups → Type 0
    AreIn = All (λ group. IsIn group.1)

    draw_groups_eq :
        (groups : Groups) (m : List String)
        → AreIn groups
        → free names m < suc bound
        → draw_groups precedes t f groups m ≡ draw_groups precedes t g groups m
    unfolding draw_groups
    draw_groups_eq [] m i h = refl
    draw_groups_eq ((key, kids) ∷ groups) m (i, j) h =
        then_draw_eq _ _ (draw_groups precedes t f groups) (draw_groups precedes t g groups)
          (draw_group_eq (unmarked m kids) m (unmarked-IsNew m kids i) h)
          (draw_groups_eq groups _ j (
            omega (
              arith,
              free_mono names m _ (draw_group-IsBelow f grows precedes t (unmarked m kids) m),
              h,
            )))

    add_kid-AreIn :
        (key kid : String) (groups : Groups)
        → contains names kid ≡ true
        → AreIn groups
        → AreIn (add_kid key kid groups)
    unfolding add_kid
    add_kid-AreIn key kid [] c h = ((c, tt), tt)
    add_kid-AreIn key kid ((k, kids) ∷ groups) c (h, j) = elim (Bool-cases (k == key)) [
      | inl e ↦ rw e (All-append (λ n. contains names n ≡ true) kids (kid ∷ []) h (c, tt), j)
      | inr e ↦ rw e (h, add_kid-AreIn key kid groups c j)
    ]

    group_kids-AreIn :
        (m kids : List String) (groups : Groups)
        → IsIn kids
        → AreIn groups
        → AreIn (group_kids precedes t m kids groups)
    unfolding group_kids
    group_kids-AreIn m [] groups i h = h
    group_kids-AreIn m (kid ∷ kids) groups (c, i) h = elim (Bool-cases (contains m kid)) [
      | inl e ↦ rw e (group_kids-AreIn m kids groups i h)
      | inr e ↦ rw e (group_kids-AreIn m kids _ i (add_kid-AreIn _ kid groups c h))
    ]

    draw_below_eq :
        ((p : String) → IsIn (links_of t.graph.children p))
        → (ps m : List String) → free names m < suc bound
        → draw_below precedes t f ps m ≡ draw_below precedes t g ps m
    unfolding draw_below
    draw_below_eq closed [] m h = refl
    draw_below_eq closed (p ∷ ps) m h =
        let groups = group_kids precedes t m (links_of t.graph.children p) [] in
        then_draw_eq _ _ (draw_below precedes t f ps) (draw_below precedes t g ps)
          (draw_groups_eq groups m
            (group_kids-AreIn m (links_of t.graph.children p) [] (closed p) tt) h)
          (draw_below_eq closed ps _ (
            omega
              (arith, free_mono names m _ (draw_groups-IsBelow f grows precedes t groups m), h)))

plus_zero : (d : ℕ) → 0 + d ≡ d
plus_zero d = omega arith

plus_suc : (a d : ℕ) → suc a + d ≡ suc (a + d)
plus_suc a d = omega arith

-- All that the tree names is among the names.
abbrev pub IsClosed : List String → Tree → Type 0
IsClosed names t =
    All (λ n. contains names n ≡ true) t.roots
    × ((p : String) → All (λ n. contains names n ≡ true) (links_of t.graph.children p))

module _ (names : List String) (precedes : String → String → Bool) (t : Tree)
    (closed : (p : String) → All (λ n. contains names n ≡ true) (links_of t.graph.children p)) where
  deeper :
      (depth : ℕ) (ps m : List String)
      → free names m < depth
      → children_rows precedes t depth ps m ≡ children_rows precedes t (suc depth) ps m
  unfolding children_rows
  deeper zero ps m h = absurd (omega (arith, h))
  deeper (suc depth) ps m h =
      draw_below_eq names depth (children_rows precedes t depth)
        (children_rows precedes t (suc depth)) (children_rows-IsGrowing precedes t depth)
        (deeper depth) precedes t closed ps m h

  much_deeper :
      (depth extra : ℕ) (ps m : List String)
      → free names m < depth
      → children_rows precedes t depth ps m ≡ children_rows precedes t (extra + depth) ps m
  much_deeper depth zero ps m h = rw (plus_zero depth) refl
  much_deeper depth (suc extra) ps m h =
      rw (plus_suc extra depth)
        (much_deeper depth extra ps m h ∙ deeper (extra + depth) ps m (omega (arith, h)))

free-le : (names m : List String) → free names m ≤ length names
free-le [] m = omega arith
free-le (u ∷ names) m = omega (arith, free-le names m)

roots-IsNew :
    (names roots : List String)
    → All (λ n. contains names n ≡ true) roots
    → All (λ n. (contains names n ≡ true) × (marked n [] ≡ 0)) roots
unfolding marked contains
roots-IsNew names [] h = tt
roots-IsNew names (r ∷ roots) (c, h) = ((c, refl), roots-IsNew names roots h)

-- If all roots and children are among some names, then the rows that are drawn within one more
-- than as many calls deep are those drawn with any greater depth: the drawing ends.
pub tree_rows_depth :
    (precedes : String → String → Bool) (names : List String) (t : Tree) (extra : ℕ)
    → IsClosed names t
    → tree_rows precedes (suc (length names)) t ≡ tree_rows precedes (extra + suc (length names)) t
unfolding tree_rows
tree_rows_depth precedes names t extra (roots, closed) =
    let depth = suc (length names) in
    draw_group_eq names depth (children_rows precedes t depth)
      (children_rows precedes t (extra + depth)) (children_rows-IsGrowing precedes t depth)
      (much_deeper names precedes t closed depth extra) precedes t t.roots []
      (roots-IsNew names t.roots roots) (omega (arith, free-le names []))
