-- ===== src/Session.antt =====
-- The session and the roles (state.js), and the guard of the pages (`useRequireAuth` of hooks.js).
-- A string that is `null`, `undefined` or empty is falsy.
pub mod Roles
pub mod Storage
pub mod Guard
mod Tests
use pikoci.Base.{
  ℕ, leb, ltb, ◌++◌, number_equality, String, Bool, true, false, not, ◌&&◌, ◌||◌, Option, none,
  some, List, [], ◌∷◌, find, or_empty, if◌then◌else◌, ◌==◌, text_equality,
}
use pikoci.JsObject.{is_inherited}
use pikoci.Text.{Chars, codes}

pub record Membership : Type 0 where
  pub team_canonical : String
  pub role : String

pub record User : Type 0 where
  pub admin : Bool
  pub must_change_password : Bool
  pub memberships : Option (List Membership)

pub record Session : Type 0 where
  pub jwt : Option String
  pub user : Option User

-- A string as a condition.
abbrev pub is_truthy : Option String → Bool
is_truthy none = false
is_truthy (some s) = not (s == "")

abbrev pub no_session : Session
no_session = record { jwt = none; user = none }

unfoldable pub is_logged_in : Session → Bool
is_logged_in s = is_truthy s.jwt

-- `ROLE_LEVELS[r] || 0`; `none` is an inherited property, which is no number.
unfoldable pub role_level : String → Option ℕ
role_level r =
    if r == "public"
    then some 0
    else if r == "read"
    then some 1
    else if r == "write"
    then some 2
    else if r == "maintain"
    then some 3
    else if r == "admin"
    then some 4
    else if is_inherited r
    then none
    else some 0

-- How the text of an inherited property begins, up to where two of them differ: the texts of
-- functions have their names, and `__proto__` is an object.
unfoldable pub inherited_text : String → Chars
inherited_text r =
    if r == "__proto__"
    then codes "[object Object]"
    else if r == "constructor"
    then codes "function Object"
    else codes "function " ++ codes r

-- `a >= b`, for texts
unfoldable pub text_at_least : Chars → Chars → Bool
text_at_least a [] = true
text_at_least [] (d ∷ ds) = false
text_at_least (c ∷ cs) (d ∷ ds) = let rest = text_at_least cs ds in if c == d then rest else ltb d c

-- `a >= b`: two inherited properties are compared as texts, and one of them with a number is not.
abbrev pub level_at_least : Option ℕ → Option ℕ → Bool → Bool
level_at_least none none by_text = by_text
level_at_least none (some n) by_text = false
level_at_least (some m) none by_text = false
level_at_least (some m) (some n) by_text = leb n m

-- `(ROLE_LEVELS[r] || 0) >= (ROLE_LEVELS[q] || 0)`
unfoldable pub at_least : String → String → Bool
at_least r q =
    level_at_least (role_level r) (role_level q)
      (text_at_least (inherited_text r) (inherited_text q))

-- `x === tc`, where `tc` may be `null`
abbrev pub is_team : Option String → String → Bool
is_team none x = false
is_team (some t) x = x == t

-- `m ? m.role : null`
abbrev pub role_of : Option Membership → Option String
role_of none = none
role_of (some m) = some m.role

unfoldable pub role_in : List Membership → Option String → Option String
role_in memberships tc = role_of (find (λ m. is_team tc m.team_canonical) memberships)

unfoldable pub get_team_role : Session → Option String → Option String
get_team_role s tc = elim s.user [
  | none ↦ none
  | some u ↦ if u.admin then some "admin" else role_in (or_empty u.memberships) tc
]

-- `if (!r) return false`, and the comparison
unfoldable pub role_suffices : Option String → String → Bool
role_suffices none required = false
role_suffices (some r) required = not (r == "") && at_least r required

unfoldable pub has_team_role : Session → Option String → String → Bool
has_team_role s tc required = elim s.user [
  | none ↦ false
  | some u ↦ if u.admin then true else role_suffices (get_team_role s tc) required
]

unfoldable pub is_team_admin : Session → Option String → Bool
is_team_admin s tc = has_team_role s tc "admin"

unfoldable pub is_team_member : Session → Option String → Bool
is_team_member s tc = elim s.user [
  | none ↦ false
  | some u ↦ if u.admin then true else elim tc [
    | none ↦ true
    | some t ↦ if t == "" then true else has_team_role s (some t) "read"
  ]
]

-- The signal and what `localStorage` holds for it.
pub record Store : Type 0 where
  pub session : Session
  pub stored : Option Session

-- The session that a page starts with: `JSON.parse(localStorage.getItem(key) || '{}')`.
unfoldable pub restore : Option Session → Session
restore none = no_session
restore (some s) = s

unfoldable pub login : Option String → Option User → Store → Store
login jwt user st =
    let s : Session = record { jwt = jwt; user = user } in record { session = s; stored = some s }

unfoldable pub logout : Store → Store
logout st = record { session = no_session; stored = none }

-- The arguments of `useRequireAuth`.
pub record Requirement : Type 0 where
  pub admin_only : Bool
  pub required_role : Option String
  pub team_canonical : Option String
  pub redirect_to : Option String

abbrev append : String → String → String
append = Prim.Native.String.◌++◌

-- A string that was found truthy.
abbrev pub text_of : Option String → String
text_of none = ""
text_of (some t) = t

unfoldable pub must_change : Session → Bool
must_change s = elim s.user [ none ↦ false | some u ↦ u.must_change_password ]

unfoldable pub is_denied : Requirement → Session → Bool
is_denied r s = elim r.required_role [
  | none ↦ r.admin_only && not (is_team_admin s r.team_canonical)
  | some role ↦
      if role == ""
      then r.admin_only && not (is_team_admin s r.team_canonical)
      else not (has_team_role s r.team_canonical role)
]

unfoldable pub denied_path : Requirement → String
denied_path r = elim (is_truthy r.redirect_to) [
  | true ↦ text_of r.redirect_to
  | false ↦
      if is_truthy r.team_canonical
      then append "/teams/" (append (text_of r.team_canonical) "/pipelines")
      else "/"
]

-- The effect of `useRequireAuth` at a path: where it routes to, if anywhere.
unfoldable pub require_auth : Requirement → Session → String → Option String
require_auth r s path =
    if not (is_logged_in s)
    then some "/login"
    else if must_change s && not (path == "/profile")
    then some "/profile"
    else if is_denied r s
    then some (denied_path r)
    else none
