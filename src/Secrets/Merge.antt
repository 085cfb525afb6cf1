-- ===== src/Secrets/Merge.antt =====
-- Which rows the set that a pipeline sees has for a name (components/Secrets.js).
use pikoci.Base.{
  String, Bool, true, false, any, ◌||◌, not, ◌≡◌, refl, ap, ◌∙◌, inl, inr, List, [], ◌∷◌, ◌++◌, map,
  filter, contains, text_equality, ◌==◌, ==_iff, ==_refl, if◌then◌else◌, Bool-cases, arith,
}
use mathlib.Core.List.{append-nil}
use pikoci.Sort.Laws.{filter-sort}
use pikoci.Secrets.{Entry, Row, canonicals, own_row, inherited_row, merge_entries}

-- A row of the pipeline, and a row that it inherits.
abbrev pub own : List Entry → Entry → Row
own team e = record {
  entry = e;
  inherited = false;
  overrides = any (λ t. t.canonical == e.canonical) team;
}

abbrev pub from_team : Entry → Row
from_team e = record { entry = e; inherited = true; overrides = false }

unfoldable pub is_named : String → Entry → Bool
is_named n e = e.canonical == n

unfoldable pub row_named : String → Row → Bool
row_named n r = r.entry.canonical == n

-- The parts of a list of rows are looked through one after the other.
filter-append :
    (n : String) (xs ys : List Row)
    → filter (row_named n) (xs ++ ys) ≡ filter (row_named n) xs ++ filter (row_named n) ys
filter-append n [] ys = refl
filter-append n (x ∷ xs) ys = ground (arith, filter-append n xs ys)

filter-own_row :
    (n : String) (team es : List Entry)
    → filter (row_named n) (map (own_row team) es) ≡ map (own_row team) (filter (is_named n) es)
unfolding own_row row_named is_named
filter-own_row n team [] = refl
filter-own_row n team (e ∷ es) = elim (Bool-cases (e.canonical == n)) [
  | inl h ↦ rw (h, filter-own_row n team es) refl
  | inr h ↦ rw (h, filter-own_row n team es) refl
]

filter-not_named :
    (n : String) (es : List Entry)
    → contains (canonicals es) n ≡ false
    → filter (is_named n) es ≡ []
unfolding canonicals contains is_named
filter-not_named n [] h = refl
filter-not_named n (e ∷ es) h = elim (Bool-cases (e.canonical == n)) [
  | inl k ↦ absurd (ground (arith, k, h))
  | inr k ↦ rw k (filter-not_named n es (ground (arith, k, h)))
]

-- Of the entries of the team, those named `n` are kept if the pipeline has none of that name.
filter-inherited_row :
    (n : String) (taken : List String) (es : List Entry)
    → filter (row_named n) (map inherited_row (filter (λ e. not (contains taken e.canonical)) es))
      ≡ (if contains taken n then [] else map inherited_row (filter (is_named n) es))
unfolding inherited_row row_named is_named
filter-inherited_row n taken [] = ground arith
filter-inherited_row n taken (e ∷ es) = elim (Bool-cases (e.canonical == n)) [
  | inl h ↦
      rw ((==_iff e.canonical n).0 h) (ground (arith, filter-inherited_row n taken es, ==_refl n))
  | inr h ↦ ground (arith, filter-inherited_row n taken es, h)
]

ap_both : {a b c d : List Row} → a ≡ b → c ≡ d → a ++ c ≡ b ++ d
ap_both e f = rw (e, f) refl

-- A name that the pipeline has is not looked up in the team.
shadow :
    (n : String) (team pipeline : List Entry)
    → map (own_row team) (filter (is_named n) pipeline)
        ++ (if contains (canonicals pipeline) n
            then []
            else map inherited_row (filter (is_named n) team))
      ≡ (if contains (canonicals pipeline) n
          then map (own_row team) (filter (is_named n) pipeline)
          else map inherited_row (filter (is_named n) team))
shadow n team pipeline = elim (Bool-cases (contains (canonicals pipeline) n)) [
  | inl h ↦ rw h (append-nil _)
  | inr h ↦ rw (h, filter-not_named n pipeline h) refl
]

contains-any :
    (es : List Entry) (n : String) → contains (canonicals es) n ≡ any (λ t. t.canonical == n) es
unfolding contains canonicals
contains-any [] n = refl
contains-any (e ∷ es) n = ap (λ b. e.canonical == n || b) (contains-any es n)

map-own_row : (team es : List Entry) → map (own_row team) es ≡ map (own team) es
unfolding own_row
map-own_row team [] = refl
map-own_row team (e ∷ es) = rw (contains-any team e.canonical, map-own_row team es) refl

map-inherited_row : (es : List Entry) → map inherited_row es ≡ map from_team es
unfolding inherited_row
map-inherited_row [] = refl
map-inherited_row (e ∷ es) = ap (λ r. from_team e ∷ r) (map-inherited_row es)

either_rows :
    (b c : Bool) (x y u v : List Row)
    → b ≡ c
    → x ≡ u
    → y ≡ v
    → (if b then x else y) ≡ (if c then u else v)
either_rows b c x y u v e f g = rw (e, f, g) refl

-- If no text is before itself, then the rows that a pipeline sees under a name are its own entries
-- of that name, in their order, not inherited, and flagged as overriding exactly if the team has
-- the name too; and only where it has none the entries of the team, flagged as inherited and not
-- as overriding.
pub merge_entries_precedence :
    (precedes : String → String → Bool) (team pipeline : List Entry) (n : String)
    → ((s : String) → precedes s s ≡ false)
    → filter (row_named n) (merge_entries precedes team pipeline) ≡ (
        if any (λ e. e.canonical == n) pipeline
        then map (own team) (filter (is_named n) pipeline)
        else map from_team (filter (is_named n) team))
unfolding merge_entries row_named
merge_entries_precedence precedes team pipeline n irreflexive =
    filter-sort _ (row_named n)
      (λ a b ha hb.
        ap (λ s. precedes s a.entry.canonical) ((==_iff b.entry.canonical n).0 hb)
        ∙ (ap (λ s. precedes n s) ((==_iff a.entry.canonical n).0 ha) ∙ irreflexive n))
      _
    ∙ (filter-append n (map (own_row team) pipeline) _
        ∙ (ap_both (filter-own_row n team pipeline)
              (filter-inherited_row n (canonicals pipeline) team)
            ∙ (shadow n team pipeline
                ∙ either_rows _ _ _ _ _ _ (contains-any pipeline n) (map-own_row team _)
                    (map-inherited_row _))))
