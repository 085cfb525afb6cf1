-- ===== src/ListView/Once.antt =====
-- No job has two rows in the list view (components/PipelineListView.js), counted for one name.
use pikoci.Base.{
  ℕ, zero, suc, ◌+◌, ◌≤◌, String, Bool, true, false, not, ◌≡◌, refl, inl, inr, List, [], ◌∷◌,
  filter, contains, text_equality, ◌==◌, if◌then◌else◌, Bool-cases, arith,
}
use pikoci.Tree.{Tree, links_of}
use pikoci.ListView.Rows.{
  Line, Drawn, mark, mark_all, FanIn, fan_in, Next, with_below, parent_rows, kid_rows, section,
  member_rows, parallel_group, Groups, add_kid, group_kids, unmarked, draw_group, draw_groups,
  draw_below, children_rows, tree_rows, group_key,
}
use pikoci.ListView.Count.{
  hit, count, count_rows, count_groups, marked, count-append, count_rows-append, count-filter,
  count-unmarked, marked-mark_all, marked-mark, fan_in-count,
}

module _ (k : String) where
  -- What is drawn was not marked before and is now, up to `spare` rows.
  abbrev IsFresh : ℕ → List String → Drawn → Type 0
  IsFresh spare marks d = count_rows k d.lines + marked k marks ≤ spare + marked k d.marks

  abbrev IsFreshBelow : Next → Type 0
  IsFreshBelow next = (names marks : List String) → IsFresh 0 marks (next names marks)

  module _ (next : Next) (fresh : IsFreshBelow next) where
    with_below-IsFresh :
        (n : String) (marks : List String) → IsFresh (hit k n) marks (with_below next n marks)
    unfolding with_below
    with_below-IsFresh n marks = omega (arith, fresh (n ∷ []) marks)

    with_mark-IsFresh :
        (n : String) (marks : List String)
        → IsFresh (hit k n) marks (with_below next n (mark n marks))
    with_mark-IsFresh n marks =
        omega (arith, with_below-IsFresh n (mark n marks), (marked-mark k n marks).0)

    parent_rows-IsFresh :
        (names marks : List String) → IsFresh (count k names) marks (parent_rows next names marks)
    unfolding parent_rows
    parent_rows-IsFresh [] marks = omega arith
    parent_rows-IsFresh (n ∷ names) marks =
        let d = with_below next n (mark n marks) in
        let e = parent_rows next names d.marks in
        omega (
          arith,
          with_mark-IsFresh n marks,
          parent_rows-IsFresh names d.marks,
          count_rows-append k d.lines e.lines,
        )

    kid_rows-IsFresh :
        (names marks : List String) → IsFresh (count k names) marks (kid_rows next names marks)
    unfolding kid_rows
    kid_rows-IsFresh [] marks = omega arith
    kid_rows-IsFresh (n ∷ names) marks =
        let d = with_below next n marks in
        let e = kid_rows next names d.marks in
        omega (
          arith,
          with_below-IsFresh n marks,
          kid_rows-IsFresh names d.marks,
          count_rows-append k d.lines e.lines,
        )

    section-IsFresh :
        (names : List String) (f : FanIn)
        → IsFresh
            (count k (filter (contains f.parents) names) + count k f.kids)
            f.marks
            (section next names f)
    unfolding section
    section-IsFresh names f =
        let d = parent_rows next (filter (contains f.parents) names) f.marks in
        let e = kid_rows next f.kids d.marks in
        omega (
          arith,
          parent_rows-IsFresh (filter (contains f.parents) names) f.marks,
          kid_rows-IsFresh f.kids d.marks,
          count_rows-append k d.lines e.lines,
        )

    inner-count :
        (inserted : Bool) (inner : List Line)
        → count_rows k (if inserted then [] else inner)
          ≡ (if inserted then 0 else count_rows k inner)
    inner-count true inner = refl
    inner-count false inner = refl

    member_rows-IsFresh :
        (parents : List String) (inner : List Line) (inserted : Bool) (names marks : List String)
        → IsFresh
            ((if inserted then 0 else count_rows k inner)
              + count k (filter (λ n. not (contains parents n)) names))
            marks
            (member_rows next parents inner inserted names marks)
    unfolding member_rows
    member_rows-IsFresh parents inner true [] marks = omega arith
    member_rows-IsFresh parents inner false [] marks = omega arith
    member_rows-IsFresh parents inner inserted (n ∷ names) marks =
        elim (Bool-cases (contains parents n)) [
          | inl e ↦ rw e (
              omega (
                arith,
                inner-count inserted inner,
                member_rows-IsFresh parents inner true names marks,
                count_rows-append k (if inserted then [] else inner)
                    (member_rows next parents inner true names marks).lines,
              ))
          | inr e ↦ rw e (
              let d = with_below next n (mark n marks) in
              let e' = member_rows next parents inner inserted names d.marks in
              omega (
                arith,
                with_mark-IsFresh n marks,
                member_rows-IsFresh parents inner inserted names d.marks,
                count_rows-append k d.lines e'.lines,
              ))
        ]

    parallel_group-IsFresh :
        (precedes : String → String → Bool) (t : Tree) (names marks : List String)
        → IsFresh (count k names) marks (parallel_group precedes t next names marks)
    unfolding parallel_group
    parallel_group-IsFresh precedes t names marks =
        let f = fan_in t names names (record { kids = []; parents = []; marks = marks }) in
        let s = section next names f in
        omega (
          arith,
          fan_in-count k t names names (record { kids = []; parents = []; marks = marks }),
          section-IsFresh names f,
          member_rows-IsFresh f.parents s.lines false names s.marks,
          count-filter k (contains f.parents) names,
        )

    -- The names of a group are not marked, and no name stands in it twice.
    draw_group-IsFresh :
        (precedes : String → String → Bool) (t : Tree) (names marks : List String)
        → count k names ≤ 1
        → (1 ≤ count k names → marked k marks ≡ 0)
        → IsFresh 0 marks (draw_group precedes t next names marks)
    unfolding draw_group
    draw_group-IsFresh precedes t [] marks h u = omega arith
    draw_group-IsFresh precedes t (n ∷ []) marks h u =
        ground (arith, with_below-IsFresh n (mark n marks), marked-mark k n marks, h, u)
    draw_group-IsFresh precedes t (a ∷ b ∷ rest) marks h u =
        let names = a ∷ b ∷ rest in
        ground (
          arith,
          parallel_group-IsFresh precedes t names (mark_all names marks),
          marked-mark_all k names marks,
          h,
          u,
        )

    unmarked_few :
        (marks kids : List String)
        → count k kids ≤ 1
        → (count k (unmarked marks kids) ≤ 1)
          × (1 ≤ count k (unmarked marks kids) → marked k marks ≡ 0)
    unfolding marked
    unmarked_few marks kids h = elim (Bool-cases (contains marks k)) [
      | inl e ↦ rw (count-unmarked k marks kids, e) (omega arith, λ q. absurd (omega (arith, q)))
      | inr e ↦ rw (count-unmarked k marks kids, e) (h, λ q. refl)
    ]

    draw_groups-IsFresh :
        (precedes : String → String → Bool) (t : Tree) (groups : Groups) (marks : List String)
        → count_groups k groups ≤ 1
        → IsFresh 0 marks (draw_groups precedes t next groups marks)
    unfolding draw_groups
    draw_groups-IsFresh precedes t [] marks h = omega arith
    draw_groups-IsFresh precedes t ((key, kids) ∷ groups) marks h =
        let d = draw_group precedes t next (unmarked marks kids) marks in
        let e = draw_groups precedes t next groups d.marks in
        let u = unmarked_few marks kids (omega (arith, h)) in
        omega (
          arith,
          draw_group-IsFresh precedes t (unmarked marks kids) marks u.0 u.1,
          draw_groups-IsFresh precedes t groups d.marks (omega (arith, h)),
          count_rows-append k d.lines e.lines,
        )

  add_kid-count :
      (key kid : String) (groups : Groups)
      → count_groups k (add_kid key kid groups) ≡ count_groups k groups + hit k kid
  unfolding add_kid
  add_kid-count key kid [] = omega arith
  add_kid-count key kid ((g, kids) ∷ groups) = elim (Bool-cases (g == key)) [
    | inl e ↦ rw e (omega (arith, count-append k kids (kid ∷ [])))
    | inr e ↦ rw e (omega (arith, add_kid-count key kid groups))
  ]

  group_kids-count :
      (precedes : String → String → Bool) (t : Tree) (marks kids : List String) (groups : Groups)
      → count_groups k (group_kids precedes t marks kids groups)
        ≤ count k kids + count_groups k groups
  unfolding group_kids
  group_kids-count precedes t marks [] groups = omega arith
  group_kids-count precedes t marks (kid ∷ kids) groups =
      let key = group_key precedes (links_of t.graph.parents kid) in
      elim (Bool-cases (contains marks kid)) [
        | inl e ↦ rw e (omega (arith, group_kids-count precedes t marks kids groups))
        | inr e ↦ rw e (
            omega (
              arith,
              group_kids-count precedes t marks kids (add_kid key kid groups),
              add_kid-count key kid groups,
            ))
      ]

  module _ (precedes : String → String → Bool) (t : Tree)
      (apart : (p : String) → count k (links_of t.graph.children p) ≤ 1) where
    draw_below-IsFresh :
        (next : Next)
        → IsFreshBelow next
        → (ps marks : List String) → IsFresh 0 marks (draw_below precedes t next ps marks)
    unfolding draw_below
    draw_below-IsFresh next fresh [] marks = omega arith
    draw_below-IsFresh next fresh (p ∷ ps) marks =
        let groups = group_kids precedes t marks (links_of t.graph.children p) [] in
        let d = draw_groups precedes t next groups marks in
        let e = draw_below precedes t next ps d.marks in
        let few : count_groups k groups ≤ 1 =
          omega
            (arith, group_kids-count precedes t marks (links_of t.graph.children p) [], apart p) in
        omega (
          arith,
          draw_groups-IsFresh next fresh precedes t groups marks few,
          draw_below-IsFresh next fresh ps d.marks,
          count_rows-append k d.lines e.lines,
        )

    children_rows-IsFresh : (depth : ℕ) → IsFreshBelow (children_rows precedes t depth)
    unfolding children_rows
    children_rows-IsFresh zero names marks = omega arith
    children_rows-IsFresh (suc depth) names marks =
        draw_below-IsFresh (children_rows precedes t depth) (children_rows-IsFresh depth) names
          marks

-- If no name stands twice among the children of any job or among the roots, then no job has two
-- rows in the list, however the siblings are grouped and joined, and however deep the drawing
-- goes.
pub tree_rows_once :
    (precedes : String → String → Bool) (depth : ℕ) (t : Tree) (k : String)
    → ((p : String) → count k (links_of t.graph.children p) ≤ 1)
    → count k t.roots ≤ 1
    → count_rows k (tree_rows precedes depth t).lines ≤ 1
unfolding tree_rows marked contains
tree_rows_once precedes depth t k apart roots =
    let next = children_rows precedes t depth in
    let h =
      draw_group-IsFresh k next (children_rows-IsFresh k precedes t apart depth) precedes t t.roots
        [] roots (λ _. refl) in
    ground (arith, h)
