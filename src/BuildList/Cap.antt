-- ===== src/BuildList/Cap.antt =====
-- What `fetchMoreBuilds` keeps of a list that grows past the cap.
use pikoci.Base.{
  ℕ, zero, suc, ◌≤◌, Bool, true, List, [], ◌∷◌, ◌++◌, filter, take, leb, leb→le, length,
  length-take, number_equality, contains, ◌≡◌, ◌∙◌, arith, Bool-cases, inl, inr,
}
use pikoci.Sort.Laws.{contains-sort, length-sort, contains-filter-sort, length-filter-sort}
use pikoci.Builds.{Build, sort_builds, build_before}
use pikoci.BuildList.{ids, unknown, is_live, is_terminal, trim, merge_more, build_list_cap}
use pikoci.BuildList.Merges.{contains-ids-filter}

-- All builds that are known once the page is there.
abbrev pub all_builds : List Build → List Build → List Build
all_builds more prev = prev ++ unknown prev more

contains-ids-sort :
    (builds : List Build) (k : ℕ) → contains (ids (sort_builds builds)) k ≡ contains (ids builds) k
unfolding sort_builds
contains-ids-sort builds k = contains-sort build_before (λ b. b.id) builds k

length-sort_builds : (builds : List Build) → length (sort_builds builds) ≡ length builds
unfolding sort_builds
length-sort_builds builds = length-sort build_before builds

-- A prefix that is not longer than the cap survives the cut.
contains-take-append :
    (n : ℕ) (xs ys : List Build) (k : ℕ)
    → length xs ≤ n
    → contains (ids xs) k ≡ true
    → contains (ids (take n (xs ++ ys))) k ≡ true
unfolding contains
contains-take-append n [] ys k h c = cc
contains-take-append zero (x ∷ xs) ys k h c = absurd (omega arith)
contains-take-append (suc n) (x ∷ xs) ys k h c = ground (arith, contains-take-append n xs ys k)

contains_of_filter :
    (q : Build → Bool) (builds : List Build) (k : ℕ)
    → contains (ids (filter q builds)) k ≡ true
    → contains (ids builds) k ≡ true
contains_of_filter q builds k h = ground (arith, contains-ids-filter q builds k)

-- After older builds are merged in, the list does not hold more builds than the cap, and if the
-- live ones do not pass it, none of them is dropped.
pub merge_more_lem :
    (more prev : List Build)
    → (length (merge_more more prev) ≤ build_list_cap)
      × (length (filter is_live (all_builds more prev)) ≤ build_list_cap
          → (k : ℕ) → contains (ids (filter is_live (all_builds more prev))) k ≡ true
          → contains (ids (merge_more more prev)) k ≡ true)
unfolding merge_more trim
merge_more_lem more prev = elim (Bool-cases (leb (length merged) build_list_cap)) [
  | inl e ↦
      rw (e, merge_more) (leb→le _ _ e, λ h k c. contains_of_filter is_live merged k (live k ∙ c))
  | inr e ↦
      rw (e, merge_more)
        (
          omega (
            arith,
            length-sort_builds kept,
            length-take build_list_cap (filter is_live merged ++ filter is_terminal merged),
          ),
          λ h k c.
              contains-ids-sort kept k
              ∙ contains-take-append build_list_cap (filter is_live merged)
                  (filter is_terminal merged) k (omega (arith, fits)) (live k ∙ c),
        )
]
  where
    merged : List Build
    merged = sort_builds (all_builds more prev)

    kept : List Build
    kept = take build_list_cap (filter is_live merged ++ filter is_terminal merged)

    live :
        (k : ℕ)
        → contains (ids (filter is_live merged)) k
          ≡ contains (ids (filter is_live (all_builds more prev))) k
    live k =
        unfold sort_builds in
        contains-filter-sort build_before (λ b. b.id) is_live (all_builds more prev) k

    fits : length (filter is_live merged) ≡ length (filter is_live (all_builds more prev))
    fits = unfold sort_builds in length-filter-sort build_before is_live (all_builds more prev)
