-- ===== src/ListView/Growth.antt =====
-- Drawing never takes a mark away (components/PipelineListView.js).
use pikoci.Base.{
  ℕ, zero, suc, ◌≤◌, String, Bool, true, false, ◌&&◌, List, [], ◌∷◌, all, length, leb, contains,
  text_equality, Bool-cases, inl, inr, arith,
}
use pikoci.Tree.{Tree, links_of}
use pikoci.ListView.Rows.{
  Line, mark, mark_all, FanIn, fan_in_kid, fan_in_kids, fan_in, Next, with_below, parent_rows,
  kid_rows, section, member_rows, parallel_group, Groups, group_kids, unmarked, draw_group,
  draw_groups, draw_below, children_rows,
}
use pikoci.ListView.Count.{marked, marked-mark, marked-mark_all}

-- What is marked in one is marked in the other.
abbrev pub IsBelow : List String → List String → Type 0
IsBelow m n = (k : String) → marked k m ≤ marked k n

pub IsBelow-refl : (m : List String) → IsBelow m m
IsBelow-refl m k = omega arith

pub IsBelow-trans : (l m n : List String) → IsBelow l m → IsBelow m n → IsBelow l n
IsBelow-trans l m n h j k = omega (arith, h k, j k)

pub mark-IsBelow : (n : String) (m : List String) → IsBelow m (mark n m)
mark-IsBelow n m k = (marked-mark k n m).0

pub mark_all-IsBelow : (names m : List String) → IsBelow m (mark_all names m)
mark_all-IsBelow names m k = (marked-mark_all k names m).0

fan_in_kid-IsBelow :
    (t : Tree) (names : List String) (kid : String) (f : FanIn)
    → IsBelow f.marks (fan_in_kid t names kid f).marks
unfolding fan_in_kid
fan_in_kid-IsBelow t names kid f = elim (Bool-cases (contains f.marks kid)) [
  | inl e ↦ rw e (IsBelow-refl f.marks)
  | inr e ↦
      elim (Bool-cases (
        leb 2 (length (links_of t.graph.parents kid))
        && all (contains names) (links_of t.graph.parents kid))) [
          | inl g ↦ rw (e, g) (mark-IsBelow kid f.marks)
          | inr g ↦ rw (e, g) (IsBelow-refl f.marks)
        ]
]

fan_in_kids-IsBelow :
    (t : Tree) (names kids : List String) (f : FanIn)
    → IsBelow f.marks (fan_in_kids t names kids f).marks
unfolding fan_in_kids
fan_in_kids-IsBelow t names [] f = IsBelow-refl f.marks
fan_in_kids-IsBelow t names (kid ∷ kids) f =
    IsBelow-trans _ _ _ (fan_in_kid-IsBelow t names kid f)
      (fan_in_kids-IsBelow t names kids (fan_in_kid t names kid f))

pub fan_in-IsBelow :
    (t : Tree) (names rest : List String) (f : FanIn)
    → IsBelow f.marks (fan_in t names rest f).marks
unfolding fan_in
fan_in-IsBelow t names [] f = IsBelow-refl f.marks
fan_in-IsBelow t names (n ∷ rest) f =
    let kids = links_of t.graph.children n in
    IsBelow-trans _ _ _ (fan_in_kids-IsBelow t names kids f)
      (fan_in-IsBelow t names rest (fan_in_kids t names kids f))

abbrev pub IsGrowing : Next → Type 0
IsGrowing next = (names m : List String) → IsBelow m (next names m).marks

module _ (next : Next) (grows : IsGrowing next) where
  pub with_below-IsBelow : (n : String) (m : List String) → IsBelow m (with_below next n m).marks
  unfolding with_below
  with_below-IsBelow n m = grows (n ∷ []) m

  pub with_mark-IsBelow :
      (n : String) (m : List String) → IsBelow m (with_below next n (mark n m)).marks
  with_mark-IsBelow n m = IsBelow-trans _ _ _ (mark-IsBelow n m) (with_below-IsBelow n (mark n m))

  pub parent_rows-IsBelow : (names m : List String) → IsBelow m (parent_rows next names m).marks
  unfolding parent_rows
  parent_rows-IsBelow [] m = IsBelow-refl m
  parent_rows-IsBelow (n ∷ names) m =
      IsBelow-trans _ _ _ (with_mark-IsBelow n m)
        (parent_rows-IsBelow names (with_below next n (mark n m)).marks)

  pub kid_rows-IsBelow : (names m : List String) → IsBelow m (kid_rows next names m).marks
  unfolding kid_rows
  kid_rows-IsBelow [] m = IsBelow-refl m
  kid_rows-IsBelow (n ∷ names) m =
      IsBelow-trans _ _ _ (with_below-IsBelow n m)
        (kid_rows-IsBelow names (with_below next n m).marks)

  pub section-IsBelow :
      (names : List String) (f : FanIn) → IsBelow f.marks (section next names f).marks
  unfolding section
  section-IsBelow names f =
      IsBelow-trans _ _ _ (parent_rows-IsBelow _ f.marks) (kid_rows-IsBelow f.kids _)

  pub member_rows-IsBelow :
      (parents : List String) (inner : List Line) (inserted : Bool) (names m : List String)
      → IsBelow m (member_rows next parents inner inserted names m).marks
  unfolding member_rows
  member_rows-IsBelow parents inner inserted [] m = IsBelow-refl m
  member_rows-IsBelow parents inner inserted (n ∷ names) m =
      elim (Bool-cases (contains parents n)) [
        | inl e ↦ rw e (member_rows-IsBelow parents inner true names m)
        | inr e ↦ rw e (
            IsBelow-trans _ _ _ (with_mark-IsBelow n m) (
              member_rows-IsBelow parents inner inserted names
                (with_below next n (mark n m)).marks))
      ]

  module _ (precedes : String → String → Bool) (t : Tree) where
    pub parallel_group-IsBelow :
        (names m : List String) → IsBelow m (parallel_group precedes t next names m).marks
    unfolding parallel_group
    parallel_group-IsBelow names m =
        let f = fan_in t names names (record { kids = []; parents = []; marks = m }) in
        IsBelow-trans _ _ _
          (fan_in-IsBelow t names names (record { kids = []; parents = []; marks = m }))
          (IsBelow-trans _ _ _ (section-IsBelow names f)
            (member_rows-IsBelow f.parents _ false names _))

    pub draw_group-IsBelow :
        (names m : List String) → IsBelow m (draw_group precedes t next names m).marks
    unfolding draw_group
    draw_group-IsBelow [] m = IsBelow-refl m
    draw_group-IsBelow (n ∷ []) m = with_mark-IsBelow n m
    draw_group-IsBelow (a ∷ b ∷ rest) m =
        IsBelow-trans _ _ _ (mark_all-IsBelow (a ∷ b ∷ rest) m)
          (parallel_group-IsBelow (a ∷ b ∷ rest) _)

    pub draw_groups-IsBelow :
        (groups : Groups) (m : List String) → IsBelow m (draw_groups precedes t next groups m).marks
    unfolding draw_groups
    draw_groups-IsBelow [] m = IsBelow-refl m
    draw_groups-IsBelow ((key, kids) ∷ groups) m =
        IsBelow-trans _ _ _ (draw_group-IsBelow (unmarked m kids) m) (draw_groups-IsBelow groups _)

    pub draw_below-IsBelow :
        (ps m : List String) → IsBelow m (draw_below precedes t next ps m).marks
    unfolding draw_below
    draw_below-IsBelow [] m = IsBelow-refl m
    draw_below-IsBelow (p ∷ ps) m =
        IsBelow-trans _ _ _
          (draw_groups-IsBelow (group_kids precedes t m (links_of t.graph.children p) []) m)
          (draw_below-IsBelow ps _)

pub children_rows-IsGrowing :
    (precedes : String → String → Bool) (t : Tree) (depth : ℕ)
    → IsGrowing (children_rows precedes t depth)
unfolding children_rows
children_rows-IsGrowing precedes t zero names m = IsBelow-refl m
children_rows-IsGrowing precedes t (suc depth) names m =
    draw_below-IsBelow (children_rows precedes t depth) (children_rows-IsGrowing precedes t depth)
      precedes t names m
