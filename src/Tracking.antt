-- ===== src/Tracking.antt =====
-- The builds that a tracked version went through (`fetchTrackedBuilds` of JobBuilds in
-- components/Jobs.js): the first resource that answers with a path decides.
-- An answer with a path also has its resource.
pub mod Path
mod Tests
use pikoci.Base.{
  ℕ, suc, String, Bool, true, false, not, ◌&&◌, ◌||◌, Option, none, some, List, [], ◌∷◌, ◌++◌, find,
  or_empty, text_equality, number_equality, ◌==◌, if◌then◌else◌,
}

pub record PathEntry : Type 0 where
  pub job_name : String
  pub build : Option ℕ  -- its id
  pub retries : Option (List ℕ)  -- their ids

pub record PathData : Type 0 where
  pub path : Option (List PathEntry)
  pub canonical : String  -- of `resource`
  pub version : Option (List (String × String))  -- of `resource`, its own properties

-- `trackedBuildIDsRef.current` and the banner: a resource and a version of it.
pub record Tracked : Type 0 where
  pub ids : Option (List ℕ)
  pub banner : Option (String × String)

-- The part of the loop over a path that one entry is.
unfoldable pub entry_ids : String → PathEntry → List ℕ
entry_ids jn e = elim e.build [
  | none ↦ []
  | some b ↦ if e.job_name == jn then b ∷ or_empty e.retries else []
]

unfoldable pub path_ids : String → List PathEntry → List ℕ
path_ids jn [] = []
path_ids jn (e ∷ es) = entry_ids jn e ++ path_ids jn es

unfoldable pub has_path : Option (Option PathData) → Bool
has_path none = false
has_path (some none) = false
has_path (some (some d)) = elim (or_empty d.path) [ [] ↦ false | _ ∷ _ ↦ true ]

-- `v[k] || rest`
unfoldable pub field_or : String → List (String × String) → String → String
field_or k [] rest = rest
field_or k ((name, value) ∷ more) rest =
    if name == k then (if value == "" then rest else value) else field_or k more rest

unfoldable pub first_field : List (String × String) → String
first_field [] = ""
first_field ((k, value) ∷ more) = Prim.Native.String.◌++◌ k (Prim.Native.String.◌++◌ ": " value)

-- `v.ref || v.digest || v.tag || …`
unfoldable pub banner_ref : List (String × String) → String
banner_ref v = field_or "ref" v (field_or "digest" v (field_or "tag" v (first_field v)))

unfoldable pub track : String → PathData → Tracked
track jn d = record {
  ids = some (path_ids jn (or_empty d.path));
  banner = some (d.canonical, banner_ref (or_empty d.version));
}

-- The loop over the settled answers, one for each resource: `none` where it was rejected, `some none`
-- where it has no data.
unfoldable pub track_first : String → List (Option (Option PathData)) → Tracked → Tracked
track_first jn [] s = s
track_first jn (none ∷ answers) s = track_first jn answers s
track_first jn (some none ∷ answers) s = track_first jn answers s
track_first jn (some (some d) ∷ answers) s =
    if has_path (some (some d)) then track jn d else track_first jn answers s

-- `fetchTrackedBuilds`: `answers` is `none` where the list of resources is not read.
unfoldable pub fetch_tracked :
    String → Option ℕ → Option (List (Option (Option PathData))) → Tracked → Tracked
fetch_tracked jn none answers s = s
fetch_tracked jn (some version) none s = s
fetch_tracked jn (some version) (some answers) s =
    if version == 0 then s else track_first jn answers s
