-- ===== src/Follow/Tests.antt =====
-- Runs of the page of a pipeline.
use pikoci.Base.{
  ◌≡◌, refl, none, some, Option, String, List, [], ◌∷◌, ◌==◌, if◌then◌else◌, text_equality,
}
use pikoci.Follow.{
  PathData, apply_version_scope, is_scoped, poll_version_path, path_answered, track_version,
  clear_version_scope, take_poll, answer_poll, banner_of, metadata_ref, has_path, loaded, chose,
  cleared, answered, step, run, opened,
}
use pikoci.Follow.Search.{answers, answers-tracked}

abbrev version_ref : List (String × String) → String
version_ref m = "abc"

abbrev path_data : PathData
path_data = record {
  canonical = "git.repo";
  metadata = some [];
  path_length = 2;
  completed = 1;
  total = 2;
}

-- The answer to a poll comes after the version was cleared, and the banner is back.
late_banner :
    (run version_ref
      (chose "git.repo" 7 "abc" ∷ cleared ∷ answered 0 (some path_data) ∷ [])
      (opened none)).banner
    ≡ some (record { resource = "git.repo"; ref = "abc"; completed = 1; total = 2 })
unfolding run step track_version poll_version_path clear_version_scope take_poll answer_poll
    path_answered banner_of apply_version_scope
late_banner = refl

-- The scope selects a job, and the address loses the version that is followed.
lost_address :
    (run version_ref
      (chose "git.repo" 7 "abc" ∷ answered 0 (some path_data) ∷ [])
      (opened none)).address
    ≡ none
unfolding run step track_version poll_version_path take_poll answer_poll path_answered
    apply_version_scope is_scoped has_path
lost_address = refl

abbrev paths : String → Option PathData
paths r = if r == "git.repo" then some path_data else none

answers-tracked_example :
    (run version_ref
      (loaded ("s3.data" ∷ "git.repo" ∷ []) ∷ answers paths ("s3.data" ∷ "git.repo" ∷ []))
      (opened (some 7))).tracked
    ≡ some (record { resource = "git.repo"; version = 7; ref = "abc" })
unfolding has_path metadata_ref
answers-tracked_example = answers-tracked version_ref paths 7 ("s3.data" ∷ "git.repo" ∷ [])
