-- ===== src/BuildList/Tests.antt =====
-- Sequences of answers of the server, and the theorems about the list of builds there.
use pikoci.Base.{
  ℕ, ◌≤◌, true, false, Option, none, some, List, [], ◌∷◌, ◌≡◌, refl, arith, contains,
  number_equality, filter, length,
}
use pikoci.Sort.{sort, insert}
use pikoci.Text.{split, to_number, digits_from}
use pikoci.Builds.{Build, number_text, key_of, key_of_parts, key_before, build_before, sort_builds}
use pikoci.Builds.Samples.{build}
use pikoci.BuildList.{
  Page, State, ids, is_live, build_list_cap, unknown, merge_fresh, merge_more, fetch_new, add_new,
  if_cursor, new_cursor, filter_by_tracked, fresh_of, fresh_or, refresh, refresh_page, Event,
  polled, refreshed, step, run,
}
use pikoci.BuildList.Merges.{HasDistinctIds}
use pikoci.BuildList.Distinct.{run-HasDistinctIds}
use pikoci.BuildList.Cap.{all_builds, merge_more_lem}

abbrev page : List Build → ℕ → Option Page
page builds newest = some (record {
  builds = some builds;
  meta = some (record { newest_id = some newest; oldest_id = some 1; has_more = some false });
})

abbrev loaded : State
loaded = record {
  builds = build 2 "2" "started" ∷ build 1 "1" "succeeded" ∷ [];
  active_id = some 2;
  newest = some 2;
  oldest = some 1;
  has_more = false;
  tracked = none;
}

-- A poll that brings one known and one new build, and the refresh after it.
abbrev session : List Event
session =
    polled (page (build 3 "3" "pending" ∷ build 2 "2" "started" ∷ []) 3)
    ∷ refreshed (page (build 2 "2" "started" ∷ build 3 "3" "started" ∷ []) 3)
    ∷ []

builds_of_session :
    (run loaded session).builds
    ≡ build 3 "3" "started" ∷ build 2 "2" "started" ∷ build 1 "1" "succeeded" ∷ []
unfolding run step if_cursor new_cursor add_new fetch_new merge_fresh unknown filter_by_tracked
    refresh_page refresh fresh_or fresh_of contains sort_builds sort insert build_before key_before
    key_of key_of_parts number_text split to_number digits_from
builds_of_session = refl

run-HasDistinctIds_example : HasDistinctIds (run loaded session).builds
unfolding contains
run-HasDistinctIds_example = run-HasDistinctIds loaded session (ground arith) (ground arith)

merge_more_lem_example :
    (length (merge_more (build 1 "1" "failed" ∷ []) loaded.builds) ≤ build_list_cap)
    × (length (filter is_live (all_builds (build 1 "1" "failed" ∷ []) loaded.builds))
          ≤ build_list_cap
        → (k : ℕ)
        → contains (ids (filter is_live (all_builds (build 1 "1" "failed" ∷ []) loaded.builds))) k
          ≡ true
        → contains (ids (merge_more (build 1 "1" "failed" ∷ []) loaded.builds)) k ≡ true)
merge_more_lem_example = merge_more_lem (build 1 "1" "failed" ∷ []) loaded.builds

-- A job without builds: the server sends no cursor.
abbrev empty : State
empty = record {
  builds = [];
  active_id = none;
  newest = none;
  oldest = none;
  has_more = false;
  tracked = none;
}
