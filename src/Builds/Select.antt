-- ===== src/Builds/Select.antt =====
-- Which build `selectActiveBuild` shows.
use pikoci.Base.{
  ℕ, Bool, true, false, Option, none, some, List, [], ◌∷◌, ◌≡◌, ◌⊎◌, inl, inr, refl, any, find,
  ◌==◌, Bool-cases, number_equality,
}
use pikoci.Builds.{Build, is_active, first_active, select_active_build}

-- The build is the first of the list that passes the test.
pub data IsFirst (p : Build → Bool) (a : Build) : List Build → Type 0 where
  here : {rest : List Build} → p a ≡ true → IsFirst p a (a ∷ rest)
  later : {b : Build} {rest : List Build} → p b ≡ false → IsFirst p a rest → IsFirst p a (b ∷ rest)

abbrev pub has_id : ℕ → Build → Bool
has_id id b = b.id == id

-- No build was asked for, or none of the list has the id.
abbrev pub IsMissing : Option ℕ → List Build → Type 0
IsMissing none builds = Unit
IsMissing (some id) builds = any (has_id id) builds ≡ false

-- What the choice `r` is meant to be: the build asked for; without it the first one that has not
-- ended; without such a one the first of the list.
pub data Selects (requested : Option ℕ) (r : Build) : List Build → Type 0 where
  asked :
      (id : ℕ) {builds : List Build}
      → requested ≡ some id
      → IsFirst (has_id id) r builds
      → Selects requested r builds
  active :
      {builds : List Build}
      → IsMissing requested builds
      → IsFirst is_active r builds
      → Selects requested r builds
  newest :
      {rest : List Build}
      → IsMissing requested (r ∷ rest)
      → any is_active (r ∷ rest) ≡ false
      → Selects requested r (r ∷ rest)

Found : (Build → Bool) → List Build → Type 0
Found p builds = (r : Build) × (find p builds ≡ some r) × IsFirst p r builds

find_cases :
    (p : Build → Bool) (builds : List Build)
    → ((find p builds ≡ none) × (any p builds ≡ false)) ⊎ Found p builds
unfolding Found
find_cases p [] = inl (refl, refl)
find_cases p (b ∷ rest) = elim (Bool-cases (p b)) [
  | inl e ↦ inr (b, rw e, here e)
  | inr e ↦ elim (find_cases p rest) [
    | inl (n, none_passes) ↦ inl (rw e n, rw e none_passes)
    | inr (r, f, first) ↦ inr (r, rw e f, later e first)
  ]
]

first_active-Selects :
    (requested : Option ℕ) (b : Build) (rest : List Build)
    → IsMissing requested (b ∷ rest)
    → Selects requested (first_active b rest) (b ∷ rest)
unfolding first_active Found
first_active-Selects requested b rest missing = elim (find_cases is_active (b ∷ rest)) [
  | inl (n, idle) ↦ rw (n, first_active) (newest missing idle)
  | inr (r, f, first) ↦ rw (f, first_active) (active missing first)
]

-- Of a list with a build one is always chosen: the first with the id asked for; without it the
-- first that has not ended; without such a one the first of the list.
select_active_build_lem :
    (requested : Option ℕ) (b : Build) (rest : List Build)
    → (r : Build) × (select_active_build (b ∷ rest) requested ≡ some r)
      × Selects requested r (b ∷ rest)
unfolding select_active_build Found
select_active_build_lem none b rest =
    (first_active b rest, refl, first_active-Selects none b rest tt)
select_active_build_lem (some id) b rest = elim (find_cases (has_id id) (b ∷ rest)) [
  | inl (n, missing) ↦ (
    first_active b rest,
    rw (n, select_active_build),
    first_active-Selects (some id) b rest missing,
  )
  | inr (r, f, first) ↦ (r, rw (f, select_active_build), asked id refl first)
]
