-- ===== src/Follow.antt =====
-- The version that the page of a pipeline follows (PipelineShow in components/PipelineShow.js), with
-- the banner, the address and the scope of the list view. What the user does, the interval and the
-- answers are events. `versionRef` is a parameter. The list view is there from the first render on, where
-- nothing is followed: the functions that it gives to the page are those of that render, so a job
-- that they select is put in the address without a version.
pub mod Agreement
pub mod Search
mod Tests
use pikoci.Base.{
  ℕ, zero, suc, Bool, true, false, not, ◌&&◌, ◌||◌, Option, none, some, List, [], ◌∷◌, ◌++◌, String,
  if◌then◌else◌, ◌==◌, text_equality, number_equality,
}

-- `trackedVersion`
pub record Track : Type 0 where
  pub resource : String
  pub version : ℕ
  pub ref : String

pub record Banner : Type 0 where
  pub resource : String
  pub ref : String
  pub completed : ℕ
  pub total : ℕ

-- `resp.data` of `fetchVersionPath`
pub record PathData : Type 0 where
  pub canonical : String  -- of `resource`
  pub metadata : Option (List (String × String))  -- `resource.version`
  pub path_length : ℕ  -- of `path`, which an answer has
  pub completed : ℕ
  pub total : ℕ

-- The request of `tryNext` that waits, and the resources behind it.
pub record Attempt : Type 0 where
  pub version : ℕ
  pub resource : String
  pub others : List String

pub record Show : Type 0 where
  pub tracked : Option Track
  pub banner : Option Banner
  pub scope : Option PathData  -- of the list view
  pub address : Option ℕ  -- `?version=`, which `initialVID` is in every render; not NaN
  pub resolved : Bool  -- `resolvedRef.current`
  pub images : List (Option ℕ)  -- the calls of `fetchImage`
  pub polls : List Track  -- the requests of `pollVersionPath` that wait
  pub attempt : Option Attempt

unfoldable pub metadata_ref :
    (List (String × String) → String) → Option (List (String × String)) → String
metadata_ref version_ref none = ""
metadata_ref version_ref (some m) = version_ref m

unfoldable pub banner_of : String → String → PathData → Banner
banner_of resource ref d = record {
  resource = resource;
  ref = ref;
  completed = d.completed;
  total = d.total;
}

unfoldable pub has_path : Option PathData → Bool
has_path none = false
has_path (some d) = elim d.path_length [ zero ↦ false | suc _ ↦ true ]

unfoldable pub is_scoped : Option PathData → Bool
is_scoped none = false
is_scoped (some d) = true

-- `applyVersionScope` of the list view: a new scope selects a job of the path, if it has one.
unfoldable pub apply_version_scope : PathData → Show → Show
apply_version_scope d s = record s {
  scope = some d;
  address = if not (is_scoped s.scope) && has_path (some d) then none else s.address;
}

-- `if (trackedVID)`
unfoldable pub tracked_shown : Option Track → Option ℕ
tracked_shown none = none
tracked_shown (some t) = if t.version == 0 then none else some t.version

-- The list view selects a job by itself, or the user does, in the render of the moment.
unfoldable pub job_selected : Show → Show
job_selected s = record s { address = tracked_shown s.tracked }

-- `pollVersionPath`
unfoldable pub poll_version_path : Track → Show → Show
poll_version_path t s = if t.resource == "" then s else record s { polls = s.polls ++ t ∷ [] }

-- The answer to it; `none` also where it fails.
unfoldable pub path_answered :
    (List (String × String) → String) → Track → Option PathData → Show → Show
path_answered version_ref t none s = s
path_answered version_ref t (some d) s = apply_version_scope d (record s {
  banner = some (
      banner_of d.canonical (if t.ref == "" then metadata_ref version_ref d.metadata else t.ref) d);
})

-- `trackVersion`
unfoldable pub track_version : String → ℕ → String → Show → Show
track_version resource version ref s =
    let t : Track = record { resource = resource; version = version; ref = ref } in
    poll_version_path t (record s {
      tracked = some t;
      images = s.images ++ some version ∷ [];
      address = some version;
    })

-- `clearVersionScope`
unfoldable pub clear_version_scope : Show → Show
clear_version_scope s = record s {
  tracked = none;
  banner = none;
  images = s.images ++ none ∷ [];
  address = none;
  scope = none;
}

-- `tryNext`
unfoldable pub try_next : ℕ → List String → Show → Show
try_next version [] s = record s { attempt = none }
try_next version (r ∷ others) s = record s {
  attempt = some (record { version = version; resource = r; others = others });
}

-- A path was found.
unfoldable pub resolve_to :
    (List (String × String) → String) → Attempt → Option PathData → Show → Show
resolve_to version_ref a none s = s
resolve_to version_ref a (some d) s =
    let ref = metadata_ref version_ref d.metadata in
    apply_version_scope d (record s {
      tracked = some (record { resource = a.resource; version = a.version; ref = ref });
      banner = some (banner_of a.resource ref d);
      attempt = none;
    })

-- The answer to an attempt.
unfoldable pub attempt_answered :
    (List (String × String) → String) → Attempt → Option PathData → Show → Show
attempt_answered version_ref a o s =
    if has_path o then resolve_to version_ref a o s else try_next a.version a.others s

unfoldable pub is_empty : List String → Bool
is_empty [] = true
is_empty (_ ∷ _) = false

-- The effect on the resources.
unfoldable pub resolve_address : List String → Option ℕ → Show → Show
resolve_address resources none s = s
resolve_address resources (some v) s =
    if v == 0 || (is_empty resources || s.resolved)
    then s
    else try_next v resources (record s { resolved = true })

-- `trackedVersion ? trackedVersion.versionID : initialVID`
unfoldable pub image_version : Option Track → Option ℕ → Option ℕ
image_version none address = address
image_version (some t) address = some t.version

unfoldable pub poll_tracked : Option Track → Show → Show
poll_tracked none s = s
poll_tracked (some t) s = poll_version_path t s

-- `pollCallback`
unfoldable pub poll_callback : Show → Show
poll_callback s =
    poll_tracked s.tracked
      (record s { images = s.images ++ image_version s.tracked s.address ∷ [] })

-- The request at a position, and the others.
unfoldable pub take_poll : ℕ → List Track → Option (Track × List Track)
take_poll k [] = none
take_poll zero (t ∷ ts) = some (t, ts)
take_poll (suc k) (t ∷ ts) = elim (take_poll k ts) [
  | none ↦ none
  | some (u, rest) ↦ some (u, t ∷ rest)
]

unfoldable pub answer_poll :
    (List (String × String) → String) → Option (Track × List Track) → Option PathData → Show → Show
answer_poll version_ref none o s = s
answer_poll version_ref (some (t, rest)) o s =
    path_answered version_ref t o (record s { polls = rest })

unfoldable pub answer_attempt :
    (List (String × String) → String) → Option Attempt → Option PathData → Show → Show
answer_attempt version_ref none o s = s
answer_attempt version_ref (some a) o s = attempt_answered version_ref a o s

pub data Event : Type 0 where
  loaded : List String → Event  -- the resources
  polled : Event
  chose : String → ℕ → String → Event
  cleared : Event
  answered : ℕ → Option PathData → Event
  attempted : Option PathData → Event
  selected : Event

unfoldable pub step : (List (String × String) → String) → Event → Show → Show
step version_ref (loaded resources) s = resolve_address resources s.address s
step version_ref polled s = poll_callback s
step version_ref (chose resource version ref) s = track_version resource version ref s
step version_ref cleared s = clear_version_scope s
step version_ref (answered k o) s = answer_poll version_ref (take_poll k s.polls) o s
step version_ref (attempted o) s = answer_attempt version_ref s.attempt o s
step version_ref selected s = job_selected s

unfoldable pub run : (List (String × String) → String) → List Event → Show → Show
run version_ref [] s = s
run version_ref (e ∷ events) s = run version_ref events (step version_ref e s)

-- The page at an address.
abbrev pub opened : Option ℕ → Show
opened address = record {
  tracked = none;
  banner = none;
  scope = none;
  address = address;
  resolved = false;
  images = [];
  polls = [];
  attempt = none;
}
