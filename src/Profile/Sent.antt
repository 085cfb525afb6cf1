-- ===== src/Profile/Sent.antt =====
-- What the forms of the account send.
use mathlib.Core.Path.{subst}
use pikoci.Base.{
  Bool, true, false, not, ◌&&◌, Option, none, some, List, [], ◌∷◌, String, ◌≡◌, ◌≢◌, refl, sym,
  arith, ◌⊎◌, inl, inr, All, All-append, All_of_contains, find, if◌then◌else◌, ◌==◌, ==_iff,
  text_equality, contains, Bool-cases,
}
use pikoci.Session.{role_level, at_least}
use pikoci.Profile.Tokens.{
  Membership, Request, Tab, role_options, index_of, role_index, up_to, filtered_roles,
  token_request, on_create_token, token_created, Event, new_pressed, cancelled, closed, named,
  scope_chosen, team_chosen, role_chosen, expiration_set, date_typed, submitted, answered, step,
  run, opened,
}

-- The role is at most the one held.
abbrev IsWithin : String → String → Type 0
IsWithin held role = at_least held role ≡ true

index_cases :
    (held : String)
    → (held ≡ "read")
      ⊎ ((held ≡ "write")
          ⊎ ((held ≡ "maintain") ⊎ ((held ≡ "admin") ⊎ (index_of held role_options ≡ none))))
unfolding index_of
index_cases held = elim (Bool-cases ("read" == held)) [
  | inl e ↦ inl (sym ((==_iff "read" held).0 e))
  | inr e ↦ elim (Bool-cases ("write" == held)) [
    | inl f ↦ inr (inl (sym ((==_iff "write" held).0 f)))
    | inr f ↦ elim (Bool-cases ("maintain" == held)) [
      | inl g ↦ inr (inr (inl (sym ((==_iff "maintain" held).0 g))))
      | inr g ↦ elim (Bool-cases ("admin" == held)) [
        | inl h ↦ inr (inr (inr (inl (sym ((==_iff "admin" held).0 h)))))
        | inr h ↦ inr (inr (inr (inr (rw (e, f, g, h) refl))))
      ]
    ]
  ]
]

-- The roles that are offered to one who holds a role.
abbrev offered : String → List String
offered held = up_to false (index_of held role_options)

known_role :
    (known held role : String)
    → All (IsWithin known) (offered known)
    → held ≡ known
    → contains (offered held) role ≡ true
    → IsWithin held role
known_role known held role a e h =
    subst (λ r. IsWithin r role) (sym e)
      (All_of_contains (IsWithin known) (offered known) role a
        (subst (λ r. contains (offered r) role ≡ true) e h))

none_offered : {A : Type 0} (role : String) → contains (up_to false none) role ≡ true → A
unfolding up_to contains
none_offered role h = absurd (false_true h)
  where
    false_true : false ≡ true → ⊥
    false_true e = cc

offered-IsWithin : (held role : String) → contains (offered held) role ≡ true → IsWithin held role
unfolding index_of up_to role_level at_least contains
offered-IsWithin held role h = elim (index_cases held) [
  | inl e ↦ known_role "read" held role (refl, tt) e h
  | inr (inl e) ↦ known_role "write" held role (refl, (refl, tt)) e h
  | inr (inr (inl e)) ↦ known_role "maintain" held role (refl, (refl, (refl, tt))) e h
  | inr (inr (inr (inl e))) ↦ known_role "admin" held role (refl, (refl, (refl, (refl, tt)))) e h
  | inr (inr (inr (inr e))) ↦
      none_offered role (subst (λ o. contains (up_to false o) role ≡ true) e h)
]

module _ (admin : Bool) (memberships : List Membership) where
  -- A role is the lowest, or its maker is an administrator, or has a role as high in the team.
  abbrev pub IsRole : String → String → Type 0
  IsRole team role =
      (role ≡ "read")
      ⊎ ((admin ≡ true)
          ⊎ ((m : Membership) × (find (λ n. n.team_canonical == team) memberships ≡ some m)
              × IsWithin m.role role))

  abbrev pub IsScope : Option (String × String) → Type 0
  IsScope none = Unit
  IsScope (some (team, role)) = (team ≢ "") × IsRole team role

  abbrev pub IsAllowed : Request → Type 0
  IsAllowed r = IsScope r.team

  role_offered :
      (b : Bool) (o : Option Membership) (role : String)
      → contains (up_to b (role_index o)) role ≡ true
      → (b ≡ true) ⊎ ((m : Membership) × (o ≡ some m) × IsWithin m.role role)
  unfolding role_index
  role_offered true o role h = inl refl
  role_offered false none role h = none_offered role h
  role_offered false (some m) role h = inr (m, refl, offered-IsWithin m.role role h)

  filtered_roles-IsRole :
      (team role : String)
      → contains (filtered_roles admin memberships team) role ≡ true
      → IsRole team role
  unfolding filtered_roles
  filtered_roles-IsRole team role h = inr (role_offered admin _ role h)

  request-IsScope :
      (personal : Bool) (team role : String)
      → (not personal && team == "") ≡ false
      → IsRole team role
      → IsScope (if personal then none else some (team, role))
  request-IsScope true team role e r = tt
  request-IsScope false team role e r = (λ k. ground (arith, e, (==_iff team "").1 k), r)

  record IsSound (t : Tab) : Type 0 where
    pub role_kept : IsRole t.team t.role
    pub calls_kept : All IsAllowed t.calls

  either_tab :
      (b : Bool) (s t : Tab)
      → (b ≡ true → IsSound s)
      → (b ≡ false → IsSound t)
      → IsSound (if b then s else t)
  either_tab true s t h k = h refl
  either_tab false s t h k = k refl

  on_create_token-IsSound :
      (iso : String → String) (t : Tab) → IsSound t → IsSound (on_create_token iso t)
  unfolding on_create_token token_request
  on_create_token-IsSound iso t h =
      either_tab (not t.personal && t.team == "") t _ (λ e. h)
        (λ e. record {
          role_kept = h.role_kept;
          calls_kept =
              All-append IsAllowed t.calls _ h.calls_kept
                (request-IsScope t.personal t.team t.role e h.role_kept, tt);
        })

  token_created-IsSound : (o : Option String) (t : Tab) → IsSound t → IsSound (token_created o t)
  unfolding token_created
  token_created-IsSound none t h = record { role_kept = h.role_kept; calls_kept = h.calls_kept }
  token_created-IsSound (some token) t h = record {
    role_kept = h.role_kept;
    calls_kept = h.calls_kept;
  }

  step-IsSound :
      (iso : String → String) (e : Event) (t : Tab)
      → IsSound t
      → IsSound (step iso admin memberships e t)
  unfolding step
  step-IsSound iso new_pressed t h = record { role_kept = h.role_kept; calls_kept = h.calls_kept }
  step-IsSound iso cancelled t h = record { role_kept = h.role_kept; calls_kept = h.calls_kept }
  step-IsSound iso closed t h = record { role_kept = h.role_kept; calls_kept = h.calls_kept }
  step-IsSound iso (named name) t h =
      either_tab t.shown _ t (λ e. record { role_kept = h.role_kept; calls_kept = h.calls_kept })
        (λ e. h)
  step-IsSound iso (scope_chosen personal) t h =
      either_tab t.shown _ t (λ e. record { role_kept = h.role_kept; calls_kept = h.calls_kept })
        (λ e. h)
  step-IsSound iso (team_chosen team) t h =
      either_tab (t.shown && not t.personal) _ t
        (λ e. record { role_kept = inl refl; calls_kept = h.calls_kept }) (λ e. h)
  step-IsSound iso (role_chosen role) t h =
      either_tab
        (t.shown && not t.personal && contains (filtered_roles admin memberships t.team) role)
        (record t { role = role }) t
        (λ e. record {
          role_kept = filtered_roles-IsRole t.team role (ground (arith, e));
          calls_kept = h.calls_kept;
        })
        (λ e. h)
  step-IsSound iso (expiration_set set) t h =
      either_tab t.shown _ t (λ e. record { role_kept = h.role_kept; calls_kept = h.calls_kept })
        (λ e. h)
  step-IsSound iso (date_typed date) t h =
      either_tab (t.shown && t.use_expiration) _ t
        (λ e. record { role_kept = h.role_kept; calls_kept = h.calls_kept }) (λ e. h)
  step-IsSound iso submitted t h =
      either_tab (t.shown && not (t.name == "") && not t.loading) (on_create_token iso t) t
        (λ e. on_create_token-IsSound iso t h) (λ e. h)
  step-IsSound iso (answered o) t h =
      either_tab t.loading (token_created o t) t (λ e. token_created-IsSound o t h) (λ e. h)

  run-IsSound :
      (iso : String → String) (events : List Event) (t : Tab)
      → IsSound t
      → IsSound (run iso admin memberships events t)
  unfolding run
  run-IsSound iso [] t h = h
  run-IsSound iso (e ∷ events) t h =
      run-IsSound iso events (step iso admin memberships e t) (step-IsSound iso e t h)

  -- Whatever is done in the form, a token that is asked for is personal, or has a team that is not
  -- empty and a role that is the lowest one or is asked for by an administrator or is at most the
  -- role that the user has in that team.
  pub calls-IsAllowed :
      (iso : String → String) (events : List Event)
      → All IsAllowed (run iso admin memberships events opened).calls
  calls-IsAllowed iso events =
      (run-IsSound iso events opened (record { role_kept = inl refl; calls_kept = tt })).calls_kept
