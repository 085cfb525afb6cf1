-- ===== src/ListView/Rows.antt =====
-- The rows of the list view (renderTree and renderParallelGroup of components/PipelineListView.js).
-- Both share the object `rendered` of the names that were drawn; here it is passed on as a list.
-- Names that every object inherits, which no chain has, are left out.
use pikoci.Base.{
  ℕ, zero, suc, String, Bool, true, false, not, ◌&&◌, List, [], ◌∷◌, ◌++◌, filter, all, length, leb,
  contains, text_equality, ◌==◌, if◌then◌else◌,
}
use pikoci.Sort.{sort}
use pikoci.Tree.{Tree, links_of}

pub data Line : Type 0 where
  row : String → Line
  header : String → Line  -- of a parallel group, with its key

pub record Drawn : Type 0 where
  pub lines : List Line
  pub marks : List String  -- `rendered`

-- `rendered[n] = true`
unfoldable pub mark : String → List String → List String
mark n marks = if contains marks n then marks else n ∷ marks

unfoldable pub mark_all : List String → List String → List String
mark_all [] marks = marks
mark_all (n ∷ names) marks = mark_all names (mark n marks)

unfoldable pub join_commas : List String → String
join_commas [] = ""
join_commas (x ∷ xs) = elim xs [
  | [] ↦ x
  | _ ∷ _ ↦ Prim.Native.String.◌++◌ x (Prim.Native.String.◌++◌ "," (join_commas xs))
]

-- `names.slice().sort().join(',')`; `precedes` is the order of texts in JavaScript.
unfoldable pub group_key : (String → String → Bool) → List String → String
group_key precedes names = join_commas (sort precedes names)

-- The kids that are joined below a group, and the parents of theirs.
pub record FanIn : Type 0 where
  pub kids : List String
  pub parents : List String
  pub marks : List String

unfoldable pub fan_in_kid : Tree → List String → String → FanIn → FanIn
fan_in_kid t names kid f =
    let kid_parents = links_of t.graph.parents kid in
    if contains f.marks kid
    then f
    else if leb 2 (length kid_parents) && all (contains names) kid_parents
    then record {
      kids = f.kids ++ kid ∷ [];
      parents = kid_parents ++ f.parents;
      marks = mark kid f.marks;
    }
    else f

unfoldable pub fan_in_kids : Tree → List String → List String → FanIn → FanIn
fan_in_kids t names [] f = f
fan_in_kids t names (kid ∷ kids) f = fan_in_kids t names kids (fan_in_kid t names kid f)

-- The loop over the names of a group.
unfoldable pub fan_in : Tree → List String → List String → FanIn → FanIn
fan_in t names [] f = f
fan_in t names (n ∷ rest) f =
    fan_in t names rest (fan_in_kids t names (links_of t.graph.children n) f)

-- What draws the children of some names: `renderChildren`.
abbrev pub Next : Type 0
Next = List String → List String → Drawn

-- A row with the rows below it.
unfoldable pub with_below : Next → String → List String → Drawn
with_below next n marks =
    let d = next (n ∷ []) marks in record { lines = row n ∷ d.lines; marks = d.marks }

-- The rows of `fanInParents`, each marked, and of `fanInChildren`.
unfoldable pub parent_rows : Next → List String → List String → Drawn
parent_rows next [] marks = record { lines = []; marks = marks }
parent_rows next (n ∷ names) marks =
    let d = with_below next n (mark n marks) in
    let e = parent_rows next names d.marks in record { lines = d.lines ++ e.lines; marks = e.marks }

unfoldable pub kid_rows : Next → List String → List String → Drawn
kid_rows next [] marks = record { lines = []; marks = marks }
kid_rows next (n ∷ names) marks =
    let d = with_below next n marks in
    let e = kid_rows next names d.marks in record { lines = d.lines ++ e.lines; marks = e.marks }

-- `fanInSection`; without kids there are no parents, and it is empty.
unfoldable pub section : Next → List String → FanIn → Drawn
section next names f =
    let d = parent_rows next (filter (contains f.parents) names) f.marks in
    let e = kid_rows next f.kids d.marks in record { lines = d.lines ++ e.lines; marks = e.marks }

-- `memberRows`: the section stands in place of the first parent, or at the end.
unfoldable pub member_rows :
    Next → List String → List Line → Bool → List String → List String → Drawn
member_rows next parents inner inserted [] marks = record {
  lines = if inserted then [] else inner;
  marks = marks;
}
member_rows next parents inner inserted (n ∷ names) marks =
    let skipped = member_rows next parents inner true names marks in
    let d = with_below next n (mark n marks) in
    let e = member_rows next parents inner inserted names d.marks in
    if contains parents n
    then record { lines = (if inserted then [] else inner) ++ skipped.lines; marks = skipped.marks }
    else record { lines = d.lines ++ e.lines; marks = e.marks }

-- `renderParallelGroup`
unfoldable pub parallel_group :
    (String → String → Bool) → Tree → Next → List String → List String → Drawn
parallel_group precedes t next names marks =
    let f = fan_in t names names (record { kids = []; parents = []; marks = marks }) in
    let s = section next names f in
    let m = member_rows next f.parents s.lines false names s.marks in
    record { lines = header (group_key precedes names) ∷ m.lines; marks = m.marks }

abbrev pub Groups : Type 0
Groups = List (String × List String)

-- `keyToKids[gk].push(kid)`, in the order of `kidOrder`.
unfoldable pub add_kid : String → String → Groups → Groups
add_kid key kid [] = (key, kid ∷ []) ∷ []
add_kid key kid ((k, kids) ∷ groups) =
    if k == key then (k, kids ++ kid ∷ []) ∷ groups else (k, kids) ∷ add_kid key kid groups

-- The siblings by their sets of parents.
unfoldable pub group_kids :
    (String → String → Bool) → Tree → List String → List String → Groups → Groups
group_kids precedes t marks [] groups = groups
group_kids precedes t marks (kid ∷ kids) groups =
    let added = add_kid (group_key precedes (links_of t.graph.parents kid)) kid groups in
    group_kids precedes t marks kids (if contains marks kid then groups else added)

unfoldable pub unmarked : List String → List String → List String
unmarked marks names = filter (λ n. not (contains marks n)) names

-- One group: nothing, a row with those below it, or a parallel group.
unfoldable pub draw_group :
    (String → String → Bool) → Tree → Next → List String → List String → Drawn
draw_group precedes t next [] marks = record { lines = []; marks = marks }
draw_group precedes t next (n ∷ []) marks = with_below next n (mark n marks)
draw_group precedes t next (a ∷ b ∷ rest) marks =
    parallel_group precedes t next (a ∷ b ∷ rest) (mark_all (a ∷ b ∷ rest) marks)

unfoldable pub draw_groups : (String → String → Bool) → Tree → Next → Groups → List String → Drawn
draw_groups precedes t next [] marks = record { lines = []; marks = marks }
draw_groups precedes t next ((k, kids) ∷ groups) marks =
    let d = draw_group precedes t next (unmarked marks kids) marks in
    let e = draw_groups precedes t next groups d.marks in
    record { lines = d.lines ++ e.lines; marks = e.marks }

-- The body of `renderChildren`, over the calls of itself.
unfoldable pub draw_below :
    (String → String → Bool) → Tree → Next → List String → List String → Drawn
draw_below precedes t next [] marks = record { lines = []; marks = marks }
draw_below precedes t next (p ∷ ps) marks =
    let d =
      draw_groups precedes t next (group_kids precedes t marks (links_of t.graph.children p) [])
        marks in
    let e = draw_below precedes t next ps d.marks in
    record { lines = d.lines ++ e.lines; marks = e.marks }

-- `renderChildren`, with a bound on the depth of its calls.
unfoldable pub children_rows : (String → String → Bool) → Tree → ℕ → Next
children_rows precedes t zero names marks = record { lines = []; marks = marks }
children_rows precedes t (suc depth) names marks =
    draw_below precedes t (children_rows precedes t depth) names marks

-- `renderTree`
unfoldable pub tree_rows : (String → String → Bool) → ℕ → Tree → Drawn
tree_rows precedes depth t = draw_group precedes t (children_rows precedes t depth) t.roots []
