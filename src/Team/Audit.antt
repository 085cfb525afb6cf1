-- ===== src/Team/Audit.antt =====
-- AuditLogTab and its FilterChips (components/Teams.js). What the user does, and the answers of the
-- server, are events.
use pikoci.Base.{
  ℕ, zero, suc, Bool, true, false, not, ◌&&◌, ◌||◌, Option, none, some, List, [], ◌∷◌, ◌++◌, String,
  map, any, if◌then◌else◌, ◌==◌, text_equality,
}

pub record Filter : Type 0 where
  pub value : String
  pub exclude : Bool

pub record Entry : Type 0 where
  pub id : ℕ
  pub actor : String
  pub action : String

-- What the server is asked for; `before` is the parameter of that name.
pub record Query : Type 0 where
  pub params : List (String × String)
  pub before : Option ℕ

-- `resp.data` and `resp.meta.has_more`
pub record Page : Type 0 where
  pub data_entries : List Entry
  pub more : Bool

-- What is done with the answer to a query: it replaces the entries, or stands behind them.
pub data Request : Type 0 where
  replacing : Query → Request
  appending : Query → Request

pub data Kind : Type 0 where
  user action pipeline : Kind

pub record Log : Type 0 where
  pub entries : List Entry
  pub has_more : Bool
  pub users : List Filter
  pub actions : List Filter
  pub pipelines : List Filter
  pub since : String
  pub until : String
  pub waiting : Option Request

-- `handleAdd`, with the empty filter that `addFilter` makes.
unfoldable pub add_filter : String → List Filter → List Filter
add_filter value items =
    if value == "" || any (λ i. i.value == value) items
    then items
    else items ++ (record { value = value; exclude = false }) ∷ []

-- `removeFilter`
unfoldable pub remove_filter : ℕ → List Filter → List Filter
remove_filter i [] = []
remove_filter zero (f ∷ fs) = fs
remove_filter (suc i) (f ∷ fs) = f ∷ remove_filter i fs

-- `toggleFilter`
unfoldable pub toggle_filter : ℕ → List Filter → List Filter
toggle_filter i [] = []
toggle_filter zero (f ∷ fs) = record f { exclude = not f.exclude } ∷ fs
toggle_filter (suc i) (f ∷ fs) = f ∷ toggle_filter i fs

unfoldable pub on_list : Kind → (List Filter → List Filter) → Log → Log
on_list user change s = record s { users = change s.users }
on_list action change s = record s { actions = change s.actions }
on_list pipeline change s = record s { pipelines = change s.pipelines }

-- The loops of `buildSearchParams`.
unfoldable pub filter_params : String → String → List Filter → List (String × String)
filter_params name excluded fs = map (λ f. (if f.exclude then excluded else name, f.value)) fs

-- `new Date(text).toISOString()` is `iso`.
unfoldable pub time_param : (String → String) → String → String → List (String × String)
time_param iso name time = if time == "" then [] else (name, iso time) ∷ []

-- `buildSearchParams`
unfoldable pub search_params : (String → String) → Log → Option ℕ → Query
search_params iso s before = record {
  params =
      filter_params "user" "exclude_user" s.users
      ++ (filter_params "action" "exclude_action" s.actions
          ++ (filter_params "pipeline" "pipeline" s.pipelines
              ++ (time_param iso "since" s.since ++ time_param iso "until" s.until)));
  before = before;
}

unfoldable pub oldest : List Entry → Option ℕ
oldest [] = none
oldest (e ∷ es) = elim es [ [] ↦ some e.id | _ ∷ _ ↦ oldest es ]

unfoldable pub is_idle : Option Request → Bool
is_idle none = true
is_idle (some _) = false

-- `loadEntries`
unfoldable pub load_entries : (String → String) → Log → Log
load_entries iso s = record s { waiting = some (replacing (search_params iso s none)) }

unfoldable pub ask_more : (String → String) → Option ℕ → Log → Log
ask_more iso none s = s
ask_more iso (some id) s = record s { waiting = some (appending (search_params iso s (some id))) }

-- `loadMore`
unfoldable pub load_more : (String → String) → Log → Log
load_more iso s = ask_more iso (oldest s.entries) s

unfoldable pub answer : Page → Option Request → Log → Log
answer p none s = s
answer p (some (replacing q)) s = record s {
  entries = p.data_entries;
  has_more = p.more;
  waiting = none;
}
answer p (some (appending q)) s = record s {
  entries = s.entries ++ p.data_entries;
  has_more = p.more;
  waiting = none;
}

pub data Event : Type 0 where
  added : Kind → String → Event
  removed : Kind → ℕ → Event
  toggled : Kind → ℕ → Event
  since_typed : String → Event
  until_typed : String → Event
  applied : Event
  pressed_more : Event
  answered : Page → Event
  failed : Event

-- The badges of pipelines are not toggled; the buttons are disabled while a query runs.
unfoldable pub step : (String → String) → Event → Log → Log
step iso (added kind value) s = on_list kind (add_filter value) s
step iso (removed kind i) s = on_list kind (remove_filter i) s
step iso (toggled user i) s = on_list user (toggle_filter i) s
step iso (toggled action i) s = on_list action (toggle_filter i) s
step iso (toggled pipeline i) s = s
step iso (since_typed time) s = record s { since = time }
step iso (until_typed time) s = record s { until = time }
step iso applied s = if is_idle s.waiting then load_entries iso s else s
step iso pressed_more s = if is_idle s.waiting && s.has_more then load_more iso s else s
step iso (answered p) s = answer p s.waiting s
step iso failed s = record s { waiting = none }

unfoldable pub run : (String → String) → List Event → Log → Log
run iso [] s = s
run iso (e ∷ events) s = run iso events (step iso e s)

-- The tab when it is opened: the effect asks for the first page.
unfoldable pub opened : (String → String) → Log
opened iso = load_entries iso (record {
  entries = [];
  has_more = false;
  users = [];
  actions = [];
  pipelines = [];
  since = "";
  until = "";
  waiting = none;
})
