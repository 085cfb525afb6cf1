-- ===== src/BuildList/Merges.antt =====
-- The merges of a page of builds into the list keep the ids apart.
use pikoci.Base.{
  ℕ, zero, suc, Bool, true, false, not, ◌||◌, List, [], ◌∷◌, ◌++◌, filter, take, leb, length,
  number_equality, contains, IsDistinct, ◌≡◌, refl, arith, Bool-cases, inl, inr, ==_iff, ==_refl,
}
use pikoci.Sort.Laws.{IsDistinct-sort}
use pikoci.Builds.{Build, sort_builds, build_before}
use pikoci.BuildList.{
  ids, unknown, merge_fresh, is_live, is_terminal, trim, merge_more, build_list_cap,
}

abbrev pub HasDistinctIds : List Build → Type 0
HasDistinctIds builds = IsDistinct (ids builds)

pub contains-ids-filter :
    (q : Build → Bool) (builds : List Build) (k : ℕ)
    → contains (ids builds) k ≡ false
    → contains (ids (filter q builds)) k ≡ false
unfolding contains
contains-ids-filter q [] k h = refl
contains-ids-filter q (b ∷ builds) k h = ground (arith, contains-ids-filter q builds k)

pub filter-HasDistinctIds :
    (q : Build → Bool) (builds : List Build)
    → HasDistinctIds builds
    → HasDistinctIds (filter q builds)
filter-HasDistinctIds q [] d = tt
filter-HasDistinctIds q (b ∷ builds) d = elim (Bool-cases (q b)) [
  | inl e ↦ rw e (contains-ids-filter q builds b.id d.0, filter-HasDistinctIds q builds d.1)
  | inr e ↦ rw e (filter-HasDistinctIds q builds d.1)
]

contains-ids-take :
    (n : ℕ) (builds : List Build) (k : ℕ)
    → contains (ids builds) k ≡ false
    → contains (ids (take n builds)) k ≡ false
unfolding contains
contains-ids-take zero builds k h = refl
contains-ids-take (suc n) [] k h = refl
contains-ids-take (suc n) (b ∷ builds) k h = ground (arith, contains-ids-take n builds k)

take-HasDistinctIds :
    (n : ℕ) (builds : List Build) → HasDistinctIds builds → HasDistinctIds (take n builds)
take-HasDistinctIds zero builds d = tt
take-HasDistinctIds (suc n) [] d = tt
take-HasDistinctIds (suc n) (b ∷ builds) d =
    (contains-ids-take n builds b.id d.0, take-HasDistinctIds n builds d.1)

contains-ids-append :
    (xs ys : List Build) (k : ℕ)
    → contains (ids (xs ++ ys)) k ≡ (contains (ids xs) k || contains (ids ys) k)
unfolding contains
contains-ids-append [] ys k = refl
contains-ids-append (x ∷ xs) ys k = ground (arith, contains-ids-append xs ys k)

append-HasDistinctIds :
    (xs ys : List Build)
    → HasDistinctIds xs
    → HasDistinctIds ys
    → ((k : ℕ) → contains (ids xs) k ≡ true → contains (ids ys) k ≡ false)
    → HasDistinctIds (xs ++ ys)
unfolding contains
append-HasDistinctIds [] ys dx dy apart = dy
append-HasDistinctIds (x ∷ xs) ys dx dy apart = (
  ground (arith, contains-ids-append xs ys x.id, dx, apart x.id, ==_refl x.id),
  append-HasDistinctIds xs ys dx.1 dy (λ k h. apart k (ground arith)),
)

-- What is merged in is not in the list.
unknown_apart :
    (prev news : List Build) (k : ℕ)
    → contains (ids prev) k ≡ true
    → contains (ids (unknown prev news)) k ≡ false
unfolding unknown contains
unknown_apart prev [] k h = refl
unknown_apart prev (b ∷ news) k h = ground (arith, unknown_apart prev news k h, ==_iff b.id k)

-- The two halves of a list by a test have no id in common.
halves_apart :
    (q : Build → Bool) (builds : List Build) (k : ℕ)
    → HasDistinctIds builds
    → contains (ids (filter (λ b. not (q b)) builds)) k ≡ true
    → contains (ids (filter q builds)) k ≡ false
unfolding contains
halves_apart q [] k d h = refl
halves_apart q (b ∷ builds) k d h = ground (
  arith,
  halves_apart q builds k,
  d,
  contains-ids-filter q builds k,
  contains-ids-filter (λ x. not (q x)) builds k,
  ==_iff b.id k,
)

pub sort_builds-HasDistinctIds :
    (builds : List Build) → HasDistinctIds builds → HasDistinctIds (sort_builds builds)
unfolding sort_builds
sort_builds-HasDistinctIds builds d = IsDistinct-sort build_before (λ b. b.id) builds d

pub merge_fresh-HasDistinctIds :
    (news prev : List Build)
    → HasDistinctIds news
    → HasDistinctIds prev
    → HasDistinctIds (merge_fresh news prev)
unfolding merge_fresh
merge_fresh-HasDistinctIds news prev dn dp =
    sort_builds-HasDistinctIds (unknown prev news ++ prev) (
      append-HasDistinctIds (unknown prev news) prev
        (unfold unknown in filter-HasDistinctIds (λ b. not (contains (ids prev) b.id)) news dn) dp
        (λ k h. ground (arith, unknown_apart prev news k, h)))

trim-HasDistinctIds : (merged : List Build) → HasDistinctIds merged → HasDistinctIds (trim merged)
unfolding trim
trim-HasDistinctIds merged d = sort_builds-HasDistinctIds _ (
    take-HasDistinctIds build_list_cap _ (
      append-HasDistinctIds (filter is_live merged) (filter is_terminal merged)
        (filter-HasDistinctIds is_live merged d) (filter-HasDistinctIds is_terminal merged d)
        (λ k h. halves_apart is_terminal merged k d h)))

pub merge_more-HasDistinctIds :
    (more prev : List Build)
    → HasDistinctIds more
    → HasDistinctIds prev
    → HasDistinctIds (merge_more more prev)
unfolding merge_more
merge_more-HasDistinctIds more prev dm dp = elim (Bool-cases (leb (length merged) build_list_cap)) [
  | inl e ↦ rw (e, merge_more) d
  | inr e ↦ rw (e, merge_more) (trim-HasDistinctIds merged d)
]
  where
    merged : List Build
    merged = sort_builds (prev ++ unknown prev more)

    d : HasDistinctIds merged
    d = sort_builds-HasDistinctIds (prev ++ unknown prev more) (
        append-HasDistinctIds prev (unknown prev more) dp
          (unfold unknown in filter-HasDistinctIds (λ b. not (contains (ids prev) b.id)) more dm)
          (unknown_apart prev more))
