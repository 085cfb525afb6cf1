-- ===== src/Session/Tests.antt =====
-- Sessions, and the theorems about them.
use mathlib.Core.Path.{subst}
use pikoci.JsObject.{is_inherited}
use pikoci.Base.{contains, text_equality, true, false, none, some, [], ◌∷◌, ◌≡◌, ◌↔◌, refl}
use pikoci.Session.{
  Session, Store, Requirement, no_session, role_level, at_least, inherited_text, text_at_least,
  role_in, role_suffices, get_team_role, has_team_role, is_logged_in, must_change, is_denied,
  require_auth,
}
use pikoci.Session.Roles.{HasRole, has_team_role_iff}
use pikoci.Session.Guard.{IsAdmitted, require_auth_iff}

abbrev writer : Session
writer = record {
  jwt = some "token";
  user = some (record {
    admin = false;
    must_change_password = false;
    memberships = some (record { team_canonical = "main"; role = "write" } ∷ []);
  });
}

maintain_own : is_inherited "maintain" ≡ false
unfolding is_inherited contains
maintain_own = refl

write_own : is_inherited "write" ≡ false
unfolding is_inherited contains
write_own = refl

has_team_role_iff_example :
    (has_team_role writer (some "main") "maintain" ≡ true) ↔ HasRole writer (some "main") "maintain"
has_team_role_iff_example = has_team_role_iff writer (some "main") "maintain" maintain_own

-- Two names that every object inherits are compared as texts.
inherited_suffices : at_least "constructor" "constructor" ≡ true
unfolding at_least role_level inherited_text text_at_least is_inherited contains
inherited_suffices = refl

writes : has_team_role writer (some "main") "write" ≡ true
unfolding has_team_role get_team_role role_in role_suffices role_level at_least
writes = refl

abbrev signed_out : Store
signed_out = record { session = no_session; stored = none }

abbrev for_writers : Requirement
for_writers = record {
  admin_only = false;
  required_role = some "write";
  team_canonical = some "main";
  redirect_to = none;
}

require_auth_iff_example :
    (require_auth for_writers writer "/teams" ≡ none) ↔ IsAdmitted for_writers writer "/teams"
require_auth_iff_example =
    require_auth_iff for_writers writer "/teams"
      (λ role e. let f : "write" ≡ role = cc in subst (λ r. is_inherited r ≡ false) f write_own)

stays : require_auth for_writers writer "/teams" ≡ none
unfolding require_auth is_logged_in must_change is_denied has_team_role get_team_role role_in
    role_suffices role_level at_least
stays = refl
