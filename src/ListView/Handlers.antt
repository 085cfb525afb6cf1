-- ===== src/ListView/Handlers.antt =====
-- The handlers and effects of the list view (components/PipelineListView.js). A menu, a job and a
-- version are chosen by events; answers of the server are events too.
use pikoci.Base.{
  ℕ, zero, suc, ◌+◌, String, Bool, true, false, not, ◌&&◌, ◌||◌, Option, none, some, List, [], ◌∷◌,
  ◌++◌, map, filter, contains, find, text_equality, ◌==◌, if◌then◌else◌, length, number_equality,
}
use pikoci.Chain.{Pipeline, resolve_chain, find_trigger_resources}
use pikoci.ListView.Status.{JobData, last_called, set_key, statuses_of}

-- An entry of the path of a version; `build` is the version and the status of its build.
pub record PathJob : Type 0 where
  pub job_name : String
  pub build : Option (Option ℕ × String)

pub record PathData : Type 0 where
  pub path : Option (List PathJob)
  pub version : Option String  -- `versionRef` of the version of the resource, if there is one

-- The three keys that the view has in `localStorage`.
pub record Saved : Type 0 where
  pub resource : Option String
  pub job : Option String
  pub collapsed : List String

pub record ListView : Type 0 where
  pub resource : Option String
  pub job : Option String
  pub jobs : List JobData
  pub resource_menu : Bool
  pub version_menu : Bool
  pub recent : Option (List ℕ)  -- the ids of the recent versions
  pub version_id : Option ℕ
  pub version_ref : Option String
  pub chain_jobs : Option (List String)
  pub build_map : Option (List (String × String))
  pub collapsed : List String
  pub saved : Saved
  pub address : Option (String × Option ℕ)  -- the job and the version in the address
  pub cleared : ℕ  -- calls of `onClearVersionScope`
  pub tracked : List (Option String × ℕ × String)  -- calls of `onTrackVersion`

-- What the view is shown with: the pipeline, `trackedVersion`, and whether there is `onTrackVersion`.
pub record Props : Type 0 where
  pub pipeline : Pipeline
  pub tracked_id : Option ℕ
  pub can_track : Bool

unfoldable pub first_of : List String → Option String
first_of [] = none
first_of (x ∷ xs) = some x

-- The resource that is selected at first.
unfoldable pub first_resource : List String → Option String → Option String
first_resource triggers none = first_of triggers
first_resource triggers (some r) =
    if not (r == "") && contains triggers r then some r else first_of triggers

unfoldable pub new_view : Props → Saved → ListView
new_view p saved = record {
  resource = first_resource (find_trigger_resources p.pipeline) saved.resource;
  job = none;
  jobs = [];
  resource_menu = false;
  version_menu = false;
  recent = none;
  version_id = none;
  version_ref = none;
  chain_jobs = none;
  build_map = none;
  collapsed = saved.collapsed;
  saved = saved;
  address = none;
  cleared = 0;
  tracked = [];
}

-- `chainJobs`
unfoldable pub chain_of : Props → ListView → List String
chain_of p s = elim s.chain_jobs [
  | some names ↦ names
  | none ↦ elim s.resource [ none ↦ [] | some r ↦ resolve_chain p.pipeline r ]
]

-- A version of the address: `if (trackedVID)`.
unfoldable pub version_shown : Option ℕ → Option ℕ
version_shown none = none
version_shown (some zero) = none
version_shown (some (suc v)) = some (suc v)

unfoldable pub select_job : Props → String → ListView → ListView
select_job p n s = record s {
  job = some n;
  saved = record s.saved { job = some n };
  address = some (n, version_shown p.tracked_id);
}

-- A job whose status is known and is not `succeeded`.
unfoldable pub is_open : List JobData → String → Bool
is_open jobs n = elim (last_called n jobs) [
  | none ↦ false
  | some d ↦ elim d.latest_status [
    | none ↦ false
    | some st ↦ not (st == "") && not (st == "succeeded")
  ]
]

unfoldable pub or_old {ℓ} : {A : Type ℓ} → Option A → Option A → Option A
or_old none old = old
or_old (some a) old = some a

-- The job that the effect picks in a chain, by what is saved.
unfoldable pub pick_job : List JobData → List String → Option String → Option String
pick_job jobs chain none = or_old (find (is_open jobs) chain) (first_of chain)
pick_job jobs chain (some n) =
    if not (n == "") && contains chain n
    then some n
    else or_old (find (is_open jobs) chain) (first_of chain)

unfoldable pub select_picked : Props → Option String → ListView → ListView
select_picked p none s = s
select_picked p (some n) s = if n == "" then s else select_job p n s

unfoldable pub is_empty : List JobData → Bool
is_empty [] = true
is_empty (d ∷ ds) = false

unfoldable pub has_job : Option String → Bool
has_job none = false
has_job (some n) = not (n == "")

-- The effect that selects a job on the first load.
unfoldable pub auto_select : Props → ListView → ListView
auto_select p s =
    if has_job s.job || is_empty s.jobs
    then s
    else select_picked p (pick_job s.jobs (chain_of p s) s.saved.job) s

-- An answer of `fetchJobs` with its data, and the effect that follows.
unfoldable pub jobs_answered : Props → List JobData → ListView → ListView
jobs_answered p jobs s = auto_select p (record s { jobs = jobs })

-- The first version among the builds of a path.
unfoldable pub path_version : List PathJob → Option ℕ
path_version [] = none
path_version (e ∷ es) = elim e.build [
  | none ↦ path_version es
  | some b ↦ elim (version_shown b.0) [ none ↦ path_version es | some v ↦ some v ]
]

unfoldable pub path_builds : List PathJob → List (String × String) → List (String × String)
path_builds [] builds = builds
path_builds (e ∷ es) builds = elim e.build [
  | none ↦ path_builds es builds
  | some b ↦ path_builds es (set_key e.job_name b.1 builds)
]

unfoldable pub path_names : List PathJob → List String
path_names path = map (λ e. e.job_name) path

unfoldable pub select_first : Props → List String → ListView → ListView
select_first p [] s = s
select_first p (n ∷ names) s = select_job p n s

unfoldable pub select_again : Props → Option String → List String → ListView → ListView
select_again p none names s = select_first p names s
select_again p (some n) names s =
    if not (n == "") && contains names n then select_job p n s else select_first p names s

-- The updater of `setVersionChainJobs`, at the old scope: a job is selected again when it is new.
unfoldable pub reselect : Props → Option (List String) → List String → ListView → ListView
reselect p none names s = select_again p s.job names s
reselect p (some old) names s = s

-- `applyVersionScopeInternal`
unfoldable pub apply_scope : Props → PathData → ListView → ListView
apply_scope p d s = elim d.path [
  | none ↦ s
  | some path ↦ record (reselect p s.chain_jobs (path_names path) s) {
    version_ref = or_old d.version s.version_ref;
    version_id = or_old (path_version path) s.version_id;
    chain_jobs = some (path_names path);
    build_map = some (path_builds path []);
  }
]

-- `clearVersionScopeInternal`
unfoldable pub clear_scope : ListView → ListView
clear_scope s = record s {
  version_id = none;
  version_ref = none;
  chain_jobs = none;
  build_map = none;
  recent = none;
}

unfoldable pub is_selected : String → Option String → Bool
is_selected r none = false
is_selected r (some old) = old == r

-- `onSelectResource`
unfoldable pub select_resource : String → ListView → ListView
select_resource r s =
    if r == "" || is_selected r s.resource
    then record s { resource_menu = false }
    else record (clear_scope s) {
      resource_menu = false;
      resource = some r;
      cleared = s.cleared + 1;
      job = none;
      saved = record s.saved { resource = some r };
    }

-- `onSelectVersion`; `none` is the item for all versions.
unfoldable pub select_version : Props → Option (ℕ × String) → ListView → ListView
select_version p none s = record (clear_scope s) { version_menu = false; cleared = s.cleared + 1 }
select_version p (some (v, ref)) s =
    let calls = if p.can_track then s.tracked ++ (s.resource, v, ref) ∷ [] else s.tracked in
    record s { version_menu = false; version_id = some v; version_ref = some ref; tracked = calls }

-- `onToggleParallel`
unfoldable pub toggle_parallel : String → ListView → ListView
toggle_parallel key s =
    let next =
      if contains s.collapsed key
      then filter (λ k. not (k == key)) s.collapsed
      else s.collapsed ++ key ∷ [] in
    record s { collapsed = next; saved = record s.saved { collapsed = next } }

-- A render: the overrides change the objects of the state.
unfoldable pub rendered : ListView → ListView
rendered s = record s { jobs = (statuses_of s.build_map s.jobs).jobs }

pub data Action : Type 0 where
  answered_jobs : List JobData → Action
  answered_versions : List ℕ → Action
  answered_path : PathData → Action  -- of a version, asked for here or by the parent
  scope_cleared : Action  -- by the parent
  chose_job : String → Action
  chose_resource : String → Action
  chose_version : Option (ℕ × String) → Action
  toggled_resource_menu : Action
  toggled_version_menu : Action
  clicked_outside : Action
  toggled_parallel : String → Action
  drew : Action

unfoldable pub act : Props → Action → ListView → ListView
act p (answered_jobs jobs) s = jobs_answered p jobs s
act p (answered_versions ids) s = record s { recent = some ids }
act p (answered_path d) s = apply_scope p d s
act p scope_cleared s = clear_scope s
act p (chose_job n) s = select_job p n s
act p (chose_resource r) s = select_resource r s
act p (chose_version v) s = select_version p v s
act p toggled_resource_menu s = record s { resource_menu = not s.resource_menu }
act p toggled_version_menu s = record s { version_menu = not s.version_menu }
act p clicked_outside s = record s { resource_menu = false; version_menu = false }
act p (toggled_parallel key) s = toggle_parallel key s
act p drew s = rendered s

-- The effect that selects a job, behind a change of the length of `chainJobs`; that of the jobs is
-- with their answer.
unfoldable pub settle : Props → ListView → ListView → ListView
settle p before s =
    if length (chain_of p s) == length (chain_of p before) then s else auto_select p s

unfoldable pub act_all : Props → List Action → ListView → ListView
act_all p [] s = s
act_all p (a ∷ rest) s = act_all p rest (settle p s (act p a s))
