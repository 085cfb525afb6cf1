-- ===== src/Profile/Tokens.antt =====
-- The form of ApiTokensTab (components/Users.js).
use pikoci.Base.{
  ℕ, suc, Bool, true, false, not, ◌&&◌, Option, none, some, List, [], ◌∷◌, ◌++◌, String, take, find,
  if◌then◌else◌, ◌==◌, text_equality, contains,
}

pub record Membership : Type 0 where
  pub team_canonical : String
  pub role : String

-- What `createApiToken` is called with; a token that is not personal has a team and a role.
pub record Request : Type 0 where
  pub name : String
  pub team : Option (String × String)
  pub expires_at : Option String

pub record Tab : Type 0 where
  pub shown : Bool
  pub created : Option String
  pub name : String
  pub personal : Bool
  pub team : String
  pub role : String
  pub use_expiration : Bool
  pub expires_at : String
  pub loading : Bool
  pub calls : List Request

abbrev pub role_options : List String
role_options = "read" ∷ "write" ∷ "maintain" ∷ "admin" ∷ []

-- `indexOf`, with `none` for -1
unfoldable pub index_of : String → List String → Option ℕ
index_of x [] = none
index_of x (y ∷ ys) =
    if y == x then some 0 else elim (index_of x ys) [ none ↦ none | some i ↦ some (suc i) ]

unfoldable pub role_index : Option Membership → Option ℕ
role_index none = none
role_index (some m) = index_of m.role role_options

unfoldable pub up_to : Bool → Option ℕ → List String
up_to admin none = if admin then role_options else []
up_to admin (some i) = take (suc i) role_options

-- `filteredRoles`
unfoldable pub filtered_roles : Bool → List Membership → String → List String
filtered_roles admin memberships team =
    up_to admin (role_index (find (λ m. m.team_canonical == team) memberships))

unfoldable pub token_expiry : (String → String) → Tab → Option String
token_expiry iso t =
    if t.use_expiration && not (t.expires_at == "") then some (iso t.expires_at) else none

-- The request of `onCreateToken`; `iso` is `new Date(text).toISOString()`.
unfoldable pub token_request : (String → String) → Tab → Request
token_request iso t = record {
  name = t.name;
  team = if t.personal then none else some (t.team, t.role);
  expires_at = token_expiry iso t;
}

-- `onCreateToken`, up to its `await`
unfoldable pub on_create_token : (String → String) → Tab → Tab
on_create_token iso t =
    if not t.personal && t.team == ""
    then t
    else record t { loading = true; calls = t.calls ++ token_request iso t ∷ [] }

-- The rest of it; without a token the call failed.
unfoldable pub token_created : Option String → Tab → Tab
token_created none t = record t { loading = false }
token_created (some token) t = record t {
  loading = false;
  created = some token;
  name = "";
  use_expiration = false;
  expires_at = "";
  shown = false;
}

pub data Event : Type 0 where
  new_pressed : Event
  cancelled : Event
  closed : Event  -- the note of the new token
  named : String → Event
  scope_chosen : Bool → Event  -- personal or not
  team_chosen : String → Event
  role_chosen : String → Event
  expiration_set : Bool → Event
  date_typed : String → Event
  submitted : Event
  answered : Option String → Event

-- The controls are there while the form is shown, and offer the roles of `filteredRoles`; the form
-- is not sent without a name.
unfoldable pub step : (String → String) → Bool → List Membership → Event → Tab → Tab
step iso admin memberships new_pressed t = record t { shown = not t.shown }
step iso admin memberships cancelled t = record t { shown = false }
step iso admin memberships closed t = record t { created = none }
step iso admin memberships (named name) t = if t.shown then record t { name = name } else t
step iso admin memberships (scope_chosen personal) t =
    if t.shown then record t { personal = personal } else t
step iso admin memberships (team_chosen team) t =
    if t.shown && not t.personal then record t { team = team; role = "read" } else t
step iso admin memberships (role_chosen role) t =
    if t.shown && not t.personal && contains (filtered_roles admin memberships t.team) role
    then record t { role = role }
    else t
step iso admin memberships (expiration_set set) t =
    if t.shown
    then record t { use_expiration = set; expires_at = if set then t.expires_at else "" }
    else t
step iso admin memberships (date_typed date) t =
    if t.shown && t.use_expiration then record t { expires_at = date } else t
step iso admin memberships submitted t =
    if t.shown && not (t.name == "") && not t.loading then on_create_token iso t else t
step iso admin memberships (answered o) t = if t.loading then token_created o t else t

unfoldable pub run : (String → String) → Bool → List Membership → List Event → Tab → Tab
run iso admin memberships [] t = t
run iso admin memberships (e ∷ events) t =
    run iso admin memberships events (step iso admin memberships e t)

abbrev pub opened : Tab
opened = record {
  shown = false;
  created = none;
  name = "";
  personal = true;
  team = "";
  role = "read";
  use_expiration = false;
  expires_at = "";
  loading = false;
  calls = [];
}
