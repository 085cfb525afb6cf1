-- ===== src/ListView/Count.antt =====
-- How often a name stands in the rows of the list view, in what waits to be drawn and in what is
-- marked.
use pikoci.Base.{
  ℕ, ◌+◌, ◌≤◌, String, Bool, false, not, ◌&&◌, ◌≡◌, ap, inl, inr, List, [], ◌∷◌, ◌++◌, filter, all,
  length, leb, contains, text_equality, ◌==◌, ==_iff, if◌then◌else◌, Bool-cases, arith,
}
use pikoci.Tree.{Tree, links_of}
use pikoci.ListView.Rows.{
  Line, row, header, mark, mark_all, FanIn, fan_in_kid, fan_in_kids, fan_in, Groups, unmarked,
}

-- How often a name stands in a list, and in the rows of some lines.
abbrev pub hit : String → String → ℕ
hit k n = if n == k then 1 else 0

abbrev pub count : String → List String → ℕ
count k [] = 0
count k (n ∷ names) = hit k n + count k names

abbrev pub count_rows : String → List Line → ℕ
count_rows k [] = 0
count_rows k (row n ∷ lines) = hit k n + count_rows k lines
count_rows k (header g ∷ lines) = count_rows k lines

abbrev pub count_groups : String → Groups → ℕ
count_groups k [] = 0
count_groups k ((g, kids) ∷ groups) = count k kids + count_groups k groups

-- Whether a name is marked, as a number.
unfoldable pub marked : String → List String → ℕ
marked k marks = if contains marks k then 1 else 0

module _ (k : String) where
  pub count-append : (xs ys : List String) → count k (xs ++ ys) ≡ count k xs + count k ys
  count-append [] ys = omega arith
  count-append (x ∷ xs) ys = omega (arith, count-append xs ys)

  pub count_rows-append :
      (xs ys : List Line) → count_rows k (xs ++ ys) ≡ count_rows k xs + count_rows k ys
  count_rows-append [] ys = omega arith
  count_rows-append (row n ∷ xs) ys = omega (arith, count_rows-append xs ys)
  count_rows-append (header g ∷ xs) ys = count_rows-append xs ys

  pub count-filter :
      (p : String → Bool) (xs : List String)
      → count k (filter p xs) + count k (filter (λ x. not (p x)) xs) ≡ count k xs
  count-filter p [] = omega arith
  count-filter p (x ∷ xs) = elim (Bool-cases (p x)) [
    | inl e ↦ rw e (omega (arith, count-filter p xs))
    | inr e ↦ rw e (omega (arith, count-filter p xs))
  ]

  pub count-unmarked :
      (marks xs : List String)
      → count k (unmarked marks xs) ≡ (if contains marks k then 0 else count k xs)
  unfolding unmarked
  count-unmarked marks [] = ground arith
  count-unmarked marks (x ∷ xs) = elim (Bool-cases (x == k)) [
    | inl e ↦ ground (arith, e, ap (contains marks) ((==_iff x k).0 e), count-unmarked marks xs)
    | inr e ↦ ground (arith, e, count-unmarked marks xs)
  ]

  -- Marking a name that is not marked yet counts it once; another time, nothing.
  pub marked-mark :
      (n : String) (marks : List String)
      → (marked k marks ≤ marked k (mark n marks)) × (hit k n ≤ marked k (mark n marks))
  unfolding marked mark contains
  marked-mark n marks = elim (Bool-cases (n == k)) [
    | inl e ↦ ground (arith, e, ap (contains marks) ((==_iff n k).0 e))
    | inr e ↦ ground (arith, e)
  ]

  pub marked-mark_new :
      (n : String) (marks : List String)
      → contains marks n ≡ false
      → marked k (mark n marks) ≡ marked k marks + hit k n
  unfolding marked mark contains
  marked-mark_new n marks h = elim (Bool-cases (n == k)) [
    | inl e ↦ ground (arith, e, h, ap (contains marks) ((==_iff n k).0 e))
    | inr e ↦ ground (arith, e, h)
  ]

  pub marked-mark_all :
      (names marks : List String)
      → (marked k marks ≤ marked k (mark_all names marks))
        × (1 ≤ count k names → 1 ≤ marked k (mark_all names marks))
  unfolding mark_all
  marked-mark_all [] marks = (omega arith, λ h. absurd (omega (arith, h)))
  marked-mark_all (n ∷ names) marks =
      let now = marked-mark n marks in
      let later = marked-mark_all names (mark n marks) in
      (omega (arith, now.0, later.0), λ h. ground (arith, h, now.1, later.0, later.1))

  -- The kids of a fan-in were not marked, and are.
  fan_in_kid-count :
      (t : Tree) (names : List String) (kid : String) (f : FanIn)
      → count k (fan_in_kid t names kid f).kids + marked k f.marks
        ≤ count k f.kids + marked k (fan_in_kid t names kid f).marks
  unfolding fan_in_kid
  fan_in_kid-count t names kid f = elim (Bool-cases (contains f.marks kid)) [
    | inl e ↦ rw e (omega arith)
    | inr e ↦
        elim (Bool-cases (
          leb 2 (length (links_of t.graph.parents kid))
          && all (contains names) (links_of t.graph.parents kid))) [
            | inl g ↦
                rw (e, g)
                  (omega (arith, count-append f.kids (kid ∷ []), marked-mark_new kid f.marks e))
            | inr g ↦ rw (e, g) (omega arith)
          ]
  ]

  fan_in_kids-count :
      (t : Tree) (names kids : List String) (f : FanIn)
      → count k (fan_in_kids t names kids f).kids + marked k f.marks
        ≤ count k f.kids + marked k (fan_in_kids t names kids f).marks
  unfolding fan_in_kids
  fan_in_kids-count t names [] f = omega arith
  fan_in_kids-count t names (kid ∷ kids) f = omega (
    arith,
    fan_in_kid-count t names kid f,
    fan_in_kids-count t names kids (fan_in_kid t names kid f),
  )

  pub fan_in-count :
      (t : Tree) (names rest : List String) (f : FanIn)
      → count k (fan_in t names rest f).kids + marked k f.marks
        ≤ count k f.kids + marked k (fan_in t names rest f).marks
  unfolding fan_in
  fan_in-count t names [] f = omega arith
  fan_in-count t names (n ∷ rest) f =
      let g = fan_in_kids t names (links_of t.graph.children n) f in
      omega (
        arith,
        fan_in_kids-count t names (links_of t.graph.children n) f,
        fan_in-count t names rest g,
      )
