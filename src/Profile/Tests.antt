-- ===== src/Profile/Tests.antt =====
-- Runs of the forms of the account.
use pikoci.Base.{
  ◌≡◌, refl, true, false, none, some, String, List, [], ◌∷◌, All, text_equality, contains,
}
use pikoci.Text.{codes, same_chars, chars_equality}
use pikoci.Profile.Passwords
use pikoci.Profile.Tokens
use pikoci.Profile.Passwords.{
  is_short, on_change_password, changed, or_before, new_typed, confirmed_typed,
}
use pikoci.Profile.Tokens.{
  Membership, index_of, role_index, up_to, filtered_roles, token_expiry, token_request,
  on_create_token, new_pressed, named, scope_chosen, team_chosen, role_chosen,
}
use pikoci.Profile.Sent.{IsAllowed, calls-IsAllowed}

-- Two empty fields are a new password.
empty_sent :
    (Passwords.run (Passwords.submitted ∷ []) (Passwords.opened true true)).calls
    ≡ (record { old_password = []; new_password = [] }) ∷ []
unfolding Passwords.run Passwords.step is_short on_change_password same_chars
empty_sent = refl

short_kept :
    (Passwords.run
      (new_typed (codes "abc") ∷ confirmed_typed (codes "abc") ∷ Passwords.submitted ∷ [])
      (Passwords.opened true true)).calls
    ≡ []
unfolding Passwords.run Passwords.step is_short
short_kept = refl

abbrev iso : String → String
iso time = time

abbrev writer : List Membership
writer = record { team_canonical = "web"; role = "write" } ∷ []

abbrev clicks : List Tokens.Event
clicks =
    new_pressed
    ∷ named "ci"
    ∷ scope_chosen false
    ∷ team_chosen "web"
    ∷ role_chosen "admin"
    ∷ role_chosen "write"
    ∷ Tokens.submitted
    ∷ []

-- The role of an administrator is not offered to a writer.
write_token :
    (Tokens.run iso false writer clicks Tokens.opened).calls
    ≡ (record { name = "ci"; team = some ("web", "write"); expires_at = none }) ∷ []
unfolding Tokens.run Tokens.step filtered_roles role_index up_to index_of on_create_token
    token_request token_expiry contains
write_token = refl

calls-IsAllowed_example :
    All (IsAllowed false writer) (Tokens.run iso false writer clicks Tokens.opened).calls
calls-IsAllowed_example = calls-IsAllowed false writer iso clicks
