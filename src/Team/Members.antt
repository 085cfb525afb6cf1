-- ===== src/Team/Members.antt =====
-- MembersTab and MemberRow (components/Teams.js). What the user does, and what the server answers to
-- a request that waits, are events.
use pikoci.Base.{
  ℕ, zero, suc, Bool, false, not, ◌&&◌, Option, none, some, List, [], ◌∷◌, ◌++◌, String, map,
  filter, any, find, length, leb, if◌then◌else◌, ◌==◌, text_equality, contains,
}

pub record Member : Type 0 where
  pub username : String
  pub role : String

-- A request that waits for its answer. `onChangeRole` keeps the list that it was called with.
pub data Request : Type 0 where
  changing : List Member → String → String → Request
  removing : String → Request

pub record Tab : Type 0 where
  pub can_manage : Bool
  pub members : List Member
  pub waiting : List Request

unfoldable pub is_admin : Member → Bool
is_admin m = m.role == "admin"

unfoldable pub admins : List Member → ℕ
admins ms = length (filter is_admin ms)

-- `isLastAdmin`
unfoldable pub is_last_admin : List Member → Member → Bool
is_last_admin ms m = is_admin m && leb (admins ms) 1

unfoldable pub change : String → String → Member → Member
change username role m = if m.username == username then record m { role = role } else m

unfoldable pub without : String → List Member → List Member
without username ms = filter (λ m. not (m.username == username)) ms

-- What is done when the answer is good.
unfoldable pub apply : Request → List Member → List Member
apply (changing seen username role) ms = map (change username role) seen
apply (removing username) ms = without username ms

unfoldable pub is_removing : String → Request → Bool
is_removing username (changing _ _ _) = false
is_removing username (removing u) = u == username

-- The row of a member, if there is one.
unfoldable pub row_of : String → List Member → Option Member
row_of username ms = find (λ m. m.username == username) ms

-- The controls of a row are there for those who may manage, and not for the last administrator.
unfoldable pub is_free : Tab → Option Member → Bool
is_free t none = false
is_free t (some m) = t.can_manage && not (is_last_admin t.members m)

-- The request at a position, and the others.
unfoldable pub take_request : ℕ → List Request → Option (Request × List Request)
take_request k [] = none
take_request zero (r ∷ rs) = some (r, rs)
take_request (suc k) (r ∷ rs) = elim (take_request k rs) [
  | none ↦ none
  | some (q, rest) ↦ some (q, r ∷ rest)
]

unfoldable pub answer : Bool → Option (Request × List Request) → Tab → Tab
answer good none t = t
answer good (some (r, rest)) t = record t {
  members = if good then apply r t.members else t.members;
  waiting = rest;
}

pub data Event : Type 0 where
  chose_role : String → String → Event
  deleted : String → Event
  loaded : List Member → Event
  answered : ℕ → Bool → Event

unfoldable pub step : Event → Tab → Tab
step (chose_role username role) t =
    if is_free t (row_of username t.members)
    then record t { waiting = t.waiting ++ changing t.members username role ∷ [] }
    else t
step (deleted username) t =
    if is_free t (row_of username t.members) && not (any (is_removing username) t.waiting)
    then record t { waiting = t.waiting ++ removing username ∷ [] }
    else t
step (loaded ms) t = record t { members = ms }
step (answered k good) t = answer good (take_request k t.waiting) t

unfoldable pub run : List Event → Tab → Tab
run [] t = t
run (e ∷ events) t = run events (step e t)

-- The users that a row for a new member offers.
unfoldable pub new_users : List Member → List String → List String
new_users ms users = filter (λ u. not (contains (map (λ m. m.username) ms) u)) users

-- `MembersTab` with the members of the team.
abbrev pub opened : Bool → List Member → Tab
opened can_manage ms = record { can_manage = can_manage; members = ms; waiting = [] }

abbrev pub names_of : List Member → List String
names_of ms = map (λ m. m.username) ms
