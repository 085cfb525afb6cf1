-- ===== src/Builds.antt =====
-- The builds of a job: how they are ordered and which one is shown (`sortBuilds` and
-- `selectActiveBuild` of utils.js).
pub mod Order
pub mod Numbers
pub mod Select
pub mod Samples
mod Tests
use pikoci.Base.{
  ℕ, ltb, String, Bool, true, false, ◌||◌, Option, none, some, List, [], ◌∷◌, map, find,
  if◌then◌else◌, ◌==◌, number_equality, text_equality,
}
use pikoci.Text.{Chars, codes, split, to_number}
use pikoci.Sort.{sort}

-- `number` is the field that `sortBuilds` reads, `build_number` the one that the server sends.
pub record Build : Type 0 where
  pub id : ℕ
  pub number : Option String
  pub build_number : String
  pub status : String

-- `a.number || '0'`
unfoldable pub number_text : Option String → Chars
number_text none = codes "0"
number_text (some s) = if s == "" then codes "0" else codes s

-- `const [major, minor] = text.split('.').map(Number)`, and `minor || 0`
pub record Key : Type 0 where
  pub major : Option ℕ
  pub minor : ℕ

-- `x || 0`, of a number that may be NaN or missing
abbrev pub or_zero : Option ℕ → ℕ
or_zero none = 0
or_zero (some n) = n

unfoldable pub key_of_parts : List (Option ℕ) → Key
key_of_parts [] = record { major = none; minor = 0 }
key_of_parts (major ∷ rest) = record {
  major = major;
  minor = elim rest [ [] ↦ 0 | minor ∷ _ ↦ or_zero minor ];
}

unfoldable pub key_of : Build → Key
key_of b = key_of_parts (map to_number (split b'.' (number_text b.number)))

-- The comparator is negative: `bMajor - aMajor` where these differ, else the difference of the
-- minor numbers. A difference with NaN is NaN, which `sort` takes for 0.
unfoldable pub key_before : Key → Key → Bool
key_before a b = elim a.major [
  | none ↦ false
  | some m ↦ elim b.major [
    | none ↦ false
    | some n ↦ if n == m then ltb b.minor a.minor else ltb n m
  ]
]

unfoldable pub build_before : Build → Build → Bool
build_before a b = key_before (key_of a) (key_of b)

unfoldable pub sort_builds : List Build → List Build
sort_builds builds = sort build_before builds

abbrev pub is_active : Build → Bool
is_active b = b.status == "started" || (b.status == "pending" || b.status == "waiting_for_approval")

-- `builds.find(active) || builds[0]`
unfoldable pub first_active : Build → List Build → Build
first_active b rest = elim (find is_active (b ∷ rest)) [ none ↦ b | some a ↦ a ]

-- `null` and `undefined` lists count as empty; a requested id is `none` where it is falsy.
unfoldable pub select_active_build : List Build → Option ℕ → Option Build
select_active_build [] requested = none
select_active_build (b ∷ rest) none = some (first_active b rest)
select_active_build (b ∷ rest) (some id) = elim (find (λ x. x.id == id) (b ∷ rest)) [
  | none ↦ some (first_active b rest)
  | some found ↦ some found
]
