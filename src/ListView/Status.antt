-- ===== src/ListView/Status.antt =====
-- The statuses that the list view shows (components/PipelineListView.js). The objects of the answer are
-- shared with the map of statuses, so that an override in the map changes the state as well. Names
-- that every object inherits are left out.
use pikoci.Base.{
  String, Bool, false, ◌||◌, Option, none, some, List, [], ◌∷◌, any, text_equality, ◌==◌,
  if◌then◌else◌,
}

pub record JobData : Type 0 where
  pub name : Option String
  pub latest_status : Option String
  pub has_running : Bool
  pub paused : Bool

unfoldable pub is_called : String → JobData → Bool
is_called n d = elim d.name [ none ↦ false | some m ↦ m == n ]

-- `buildStatusMap(jobs)[n]`: the last job of the name.
unfoldable pub last_called : String → List JobData → Option JobData
last_called n [] = none
last_called n (d ∷ ds) =
    let later = last_called n ds in
    elim later [ none ↦ if is_called n d then some d else none | some e ↦ some e ]

-- A change of the object that the map has under the name.
unfoldable pub update_last : String → (JobData → JobData) → List JobData → List JobData
update_last n f [] = []
update_last n f (d ∷ ds) =
    let later = update_last n f ds in
    if any (is_called n) ds then d ∷ later else if is_called n d then f d ∷ ds else d ∷ ds

-- `map[k] = v`, on the own properties in their order, and `map[k]`.
unfoldable pub set_key : String → String → List (String × String) → List (String × String)
set_key k v [] = (k, v) ∷ []
set_key k v ((j, w) ∷ d) = if j == k then (j, v) ∷ d else (j, w) ∷ set_key k v d

unfoldable pub get_key : String → List (String × String) → Option String
get_key k [] = none
get_key k ((j, w) ∷ d) = if j == k then some w else get_key k d

unfoldable pub is_running : String → Bool
is_running status = status == "started" || status == "pending"

unfoldable pub override : String → JobData → JobData
override status d = record d { latest_status = some status; has_running = is_running status }

-- The entry that is made for a name that has none.
unfoldable pub bare : String → JobData
bare status =
    override status
      (record { name = none; latest_status = none; has_running = false; paused = false })

-- The map of statuses: the objects of the state, and the entries that were made.
pub record Statuses : Type 0 where
  pub jobs : List JobData
  pub made : List (String × String)  -- names with the status of their bare entries

unfoldable pub override_job : String × String → Statuses → Statuses
override_job (n, status) s =
    if any (is_called n) s.jobs
    then record s { jobs = update_last n (override status) s.jobs }
    else record s { made = set_key n status s.made }

unfoldable pub override_all : List (String × String) → Statuses → Statuses
override_all [] s = s
override_all (b ∷ bs) s = override_all bs (override_job b s)

-- The map of one render: `builds` are the names and statuses of `versionBuildMap`.
unfoldable pub statuses_of : Option (List (String × String)) → List JobData → Statuses
statuses_of none jobs = record { jobs = jobs; made = [] }
statuses_of (some builds) jobs = override_all builds (record { jobs = jobs; made = [] })

-- `statusMap[n] || { name: n, latest_status: '' }`
unfoldable pub entry_of : Statuses → String → JobData
entry_of s n = elim (last_called n s.jobs) [
  | some d ↦ d
  | none ↦ elim (get_key n s.made) [
    | some status ↦ bare status
    | none ↦ record { name = some n; latest_status = none; has_running = false; paused = false }
  ]
]

unfoldable pub or_nothing : Option String → String
or_nothing none = ""
or_nothing (some s) = s

-- `data.paused ? 'paused' : (data.has_running ? 'started' : (data.latest_status || ''))`
unfoldable pub row_status : JobData → String
row_status d =
    if d.paused then "paused" else if d.has_running then "started" else or_nothing d.latest_status
