-- ===== src/Builds/Order.antt =====
-- What `sortBuilds` does to a list of builds.
use mathlib.Core.List.{Perm}
use pikoci.Base.{
  number_equality, ◌&&◌, Bool, false, none, some, List, [], ◌∷◌, ◌≡◌, ◌≢◌, arith, All, ◌==◌, filter,
}
use pikoci.Sort.Laws.{
  sort-perm, IsOrdered, IsComparator, sort-IsOrdered, sort_of_IsOrdered, filter-sort,
}
use pikoci.Builds.{Build, Key, key_of, key_before, build_before, sort_builds}

-- The part of the number before the dot is a number.
abbrev pub IsNumbered : Build → Type 0
IsNumbered b = (key_of b).major ≢ none

build_before-IsComparator : IsComparator build_before IsNumbered
unfolding build_before key_before
build_before-IsComparator = record {
  asymmetric = λ x y px py h. ground arith;
  negatively_transitive = λ x y z px py pz h k. ground arith;
}

-- The sort drops and adds nothing, and of builds whose numbers begin with a number no later one
-- has a higher number, by the major part first and then by the minor one.
pub sort_builds_lem :
    (builds : List Build)
    → All IsNumbered builds
    → Perm (sort_builds builds) builds × IsOrdered build_before (sort_builds builds)
unfolding sort_builds
sort_builds_lem builds h = (
  sort-perm build_before builds,
  sort-IsOrdered build_before IsNumbered build_before-IsComparator builds h,
)

unfoldable pub key_eq : Key → Key → Bool
key_eq a b = elim a.major [
  | none ↦ elim b.major [ none ↦ a.minor == b.minor | some _ ↦ false ]
  | some m ↦ elim b.major [ none ↦ false | some n ↦ m == n && a.minor == b.minor ]
]

abbrev pub has_key : Key → Build → Bool
has_key k b = key_eq (key_of b) k

-- Builds of one number keep their order.
sort_builds-stable :
    (builds : List Build) (k : Key)
    → filter (has_key k) (sort_builds builds) ≡ filter (has_key k) builds
unfolding sort_builds build_before key_before key_eq
sort_builds-stable builds k =
    filter-sort build_before (has_key k) (λ x y hx hy. ground arith) builds

key_before_self : (k : Key) → key_before k k ≡ false
unfolding key_before
key_before_self k = ground arith

unnumbered_tied : (a b : Build) → a.number ≡ none → b.number ≡ none → build_before a b ≡ false
unfolding build_before key_of
unnumbered_tied a b h k = rw (h, k) (key_before_self _)

unnumbered_later :
    (a : Build) (builds : List Build)
    → a.number ≡ none
    → All (λ b. b.number ≡ none) builds
    → All (λ b. build_before b a ≡ false) builds
unnumbered_later a [] h hs = tt
unnumbered_later a (b ∷ builds) h hs =
    (unnumbered_tied b a hs.0 h, unnumbered_later a builds h hs.1)

unnumbered-IsOrdered :
    (builds : List Build) → All (λ b. b.number ≡ none) builds → IsOrdered build_before builds
unnumbered-IsOrdered [] h = tt
unnumbered-IsOrdered (b ∷ builds) h =
    (unnumbered_later b builds h.0 h.1, unnumbered-IsOrdered builds h.1)

-- If no build has a field `number`, as none has that the server sends, then the sort leaves the
-- list as it is, in whatever order.
pub sort_builds_unnumbered :
    (builds : List Build) → All (λ b. b.number ≡ none) builds → sort_builds builds ≡ builds
unfolding sort_builds
sort_builds_unnumbered builds h =
    sort_of_IsOrdered build_before builds (unnumbered-IsOrdered builds h)
