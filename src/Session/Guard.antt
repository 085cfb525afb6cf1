-- ===== src/Session/Guard.antt =====
-- When `useRequireAuth` leaves a page open.
use pikoci.Base.{
  contains, String, Bool, true, false, not, ◌&&◌, Option, none, some, ◌≡◌, ◌≢◌, ◌⊎◌, ◌↔◌, inl, inr,
  refl, ap, arith, text_equality, ◌==◌, ==_iff, Bool-cases, if◌then◌else◌,
}
use text.Mathlib.TextEquality.{eq_iff}
use pikoci.JsObject.{is_inherited}
use pikoci.Session.{
  User, Session, Requirement, is_truthy, is_logged_in, must_change, is_denied, is_team_admin,
  has_team_role, require_auth,
}
use pikoci.Session.Roles.{HasRole, has_team_role_iff}

-- What the page asks for: the role that it names or else, if it says so, that of an administrator of the team.
abbrev pub Meets : Requirement → Session → Type 0
Meets r s =
    ((role : String) → r.required_role ≡ some role → role ≢ "" → HasRole s r.team_canonical role)
    × ((r.required_role ≡ none) ⊎ (r.required_role ≡ some "")
        → r.admin_only ≡ true
        → HasRole s r.team_canonical "admin")

-- There is a token, a password that must be changed is changed here, and the role is there.
pub record IsAdmitted (r : Requirement) (s : Session) (path : String) : Type 0 where
  pub token : String
  pub logged_in : s.jwt ≡ some token
  pub given : token ≢ ""
  pub password : (u : User) → s.user ≡ some u → u.must_change_password ≡ true → path ≡ "/profile"
  pub role : Meets r s

admin_role : is_inherited "admin" ≡ false
unfolding is_inherited contains
admin_role = refl

is_denied_lem :
    (r : Requirement) (s : Session)
    → ((role : String) → r.required_role ≡ some role → is_inherited role ≡ false)
    → is_denied r s ≡ false
    → Meets r s
unfolding is_denied is_team_admin
is_denied_lem r s i h = (
  λ role e ne.
      (has_team_role_iff s r.team_canonical role (i role e)).0 (ground (arith, eq_iff role "")),
  λ e a. (has_team_role_iff s r.team_canonical "admin" admin_role).0 (ground (arith, eq_iff "" "")),
)

admin_kept : (a t : Bool) → (a ≡ true → t ≡ true) → (a && not t) ≡ false
admin_kept true t h = rw (h refl) refl
admin_kept false t h = refl

-- The three tests of a requirement, by the role that it names.
role_kept :
    (o : Option String) (a t : Bool) (f : String → Bool)
    → ((role : String) → o ≡ some role → role ≢ "" → f role ≡ true)
    → ((o ≡ none) ⊎ (o ≡ some "") → a ≡ true → t ≡ true)
    → (elim o as (λ _. Bool) [
      | none ↦ a && not t
      | some role ↦ if role == "" then a && not t else not (f role)
    ])
      ≡ false
role_kept none a t f h k = admin_kept a t (k (inl refl))
role_kept (some role) a t f h k = elim (Bool-cases (role == "")) [
  | inl e ↦ rw e (admin_kept a t (k (inr (ap some ((==_iff role "").0 e)))))
  | inr e ↦ rw (e, h role refl (λ l. let m = (==_iff role "").1 l in cc)) refl
]

not_denied :
    (r : Requirement) (s : Session)
    → ((role : String) → r.required_role ≡ some role → is_inherited role ≡ false)
    → Meets r s
    → is_denied r s ≡ false
unfolding is_denied is_team_admin
not_denied r s i (h, k) =
    role_kept r.required_role r.admin_only (has_team_role s r.team_canonical "admin")
      (has_team_role s r.team_canonical)
      (λ role e ne. (has_team_role_iff s r.team_canonical role (i role e)).1 (h role e ne))
      (λ e a. (has_team_role_iff s r.team_canonical "admin" admin_role).1 (k e a))

truthy_text : (o : Option String) → is_truthy o ≡ true → (t : String) × (o ≡ some t) × (t ≢ "")
truthy_text none h = cc
truthy_text (some t) h = (t, refl, λ e. ground (arith, eq_iff t "", h, e))

text_truthy : (o : Option String) (t : String) → o ≡ some t → t ≢ "" → is_truthy o ≡ true
text_truthy none t e ne = cc
text_truthy (some u) t e ne = let f : u ≡ t = cc in ground (arith, eq_iff u "", f, ne)

must_change_of :
    (s : Session) (u : User)
    → s.user ≡ some u
    → u.must_change_password ≡ true
    → must_change s ≡ true
unfolding must_change
must_change_of s u e h = rw e h

must_change_user :
    (o : Option User)
    → (elim o as (λ _. Bool) [ none ↦ false | some u ↦ u.must_change_password ]) ≡ true
    → (u : User) × (o ≡ some u) × (u.must_change_password ≡ true)
must_change_user none h = cc
must_change_user (some u) h = (u, refl, h)

must_change_some :
    (s : Session)
    → must_change s ≡ true
    → (u : User) × (s.user ≡ some u) × (u.must_change_password ≡ true)
unfolding must_change
must_change_some s h = must_change_user s.user h

first_routes :
    (l m p d : Bool) (x : String)
    → (if not l
        then some "/login"
        else if m && not p
        then some "/profile"
        else if d
        then some x
        else none)
      ≡ none
    → (l ≡ true) × (m ≡ true → p ≡ true) × (d ≡ false)
first_routes true true true false x h = (refl, (λ e. refl), refl)
first_routes true false p false x h = (refl, (λ e. cc), refl)
first_routes true true true true x h = cc
first_routes true true false d x h = cc
first_routes true false p true x h = cc
first_routes false m p d x h = cc

no_routes :
    (l m p d : Bool) (x : String)
    → l ≡ true
    → (m ≡ true → p ≡ true)
    → d ≡ false
    → (if not l
        then some "/login"
        else if m && not p
        then some "/profile"
        else if d
        then some x
        else none)
      ≡ none
no_routes l true p d x e f g = rw (e, f refl, g) refl
no_routes l false p d x e f g = rw (e, g) refl

-- If the role that the page names is not named as a property that every object inherits, then the
-- page stays open exactly to a session that has a token that is not empty, whose user need not
-- change the password or is at /profile, and that has the role that the page names or, where it
-- names none and asks for administrators only, that of an administrator.
pub require_auth_iff :
    (r : Requirement) (s : Session) (path : String)
    → ((role : String) → r.required_role ≡ some role → is_inherited role ≡ false)
    → (require_auth r s path ≡ none) ↔ IsAdmitted r s path
unfolding require_auth is_logged_in
require_auth_iff r s path i = (
  λ h.
      let (a, b, c) =
        first_routes (is_truthy s.jwt) (must_change s) (path == "/profile") (is_denied r s) _ h in
      let (t, e, ne) = truthy_text s.jwt a in
      record {
        token = t;
        logged_in = e;
        given = ne;
        password = λ u f g. (==_iff path "/profile").0 (b (must_change_of s u f g));
        role = is_denied_lem r s i c;
      },
  λ k.
      no_routes (is_truthy s.jwt) (must_change s) (path == "/profile") (is_denied r s) _
        (text_truthy s.jwt k.token k.logged_in k.given)
        (λ m. let (u, f, g) = must_change_some s m in (==_iff path "/profile").1 (k.password u f g))
        (not_denied r s i k.role),
)
