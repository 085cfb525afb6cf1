-- ===== src/Tracking/Tests.antt =====
-- Runs of the tracking of a version.
use pikoci.Base.{◌≡◌, refl, none, some, Option, List, [], ◌∷◌, find}
use pikoci.Builds.{Build}
use pikoci.Builds.Samples.{build}
use pikoci.Tracking.{PathEntry, PathData, Tracked, has_path, banner_ref, field_or, first_field}

abbrev entry : PathEntry
entry = record { job_name = "test"; build = some 4; retries = some (5 ∷ []) }

abbrev found : PathData
found = record {
  path = some (entry ∷ []);
  canonical = "repo";
  version = some (("ref", "abc") ∷ []);
}

abbrev untracked : Tracked
untracked = record { ids = none; banner = none }

-- The first resource does not answer, the second has no path.
abbrev answers : List (Option (Option PathData))
answers = none ∷ some none ∷ some (some found) ∷ []

ref_of_digest : banner_ref (("size", "3") ∷ ("digest", "d1") ∷ []) ≡ "d1"
unfolding banner_ref field_or first_field
ref_of_digest = refl

abbrev builds : List Build
builds = build 4 "1" "succeeded" ∷ build 5 "1" "failed" ∷ build 6 "2" "succeeded" ∷ []

first_found : find has_path answers ≡ some (some (some found))
unfolding has_path
first_found = refl
