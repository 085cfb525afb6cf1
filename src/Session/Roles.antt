-- ===== src/Session/Roles.antt =====
-- Who has which role in a team.
use pikoci.Base.{
  ℕ, suc, ◌≤◌, String, Bool, true, false, Option, none, some, List, [], ◌∷◌, or_empty,
  text_equality, ◌==◌, ==_iff, ◌≡◌, ◌≢◌, ◌↔◌, ◌⊎◌, inl, inr, refl, sym, ap, ◌∙◌, arith,
  Option-cases, Bool-cases, if◌then◌else◌,
}
use text.Mathlib.TextEquality.{eq_iff}
use pikoci.JsObject.{is_inherited}
use pikoci.Session.{
  Membership, User, Session, role_level, at_least, level_at_least, role_of, is_team, role_in,
  get_team_role, role_suffices, has_team_role,
}

-- The roles, each above those in front of it.
abbrev pub roles : List String
roles = "public" ∷ "read" ∷ "write" ∷ "maintain" ∷ "admin" ∷ []

abbrev next : Option ℕ → Option ℕ
next none = none
next (some n) = some (suc n)

abbrev position : String → List String → Option ℕ
position r [] = none
position r (x ∷ xs) = if r == x then some 0 else next (position r xs)

abbrev lowest_or_none : String → Option ℕ → Option ℕ
lowest_or_none r none = if is_inherited r then none else some 0
lowest_or_none r (some n) = some n

-- How many roles are below this one; one that is not listed counts as the lowest, and a name that
-- every object inherits as none.
abbrev pub rank : String → Option ℕ
rank r = lowest_or_none r (position r roles)

-- The first membership in the team.
pub data First (tc : Option String) : List Membership → Membership → Type 0 where
  here : (m : Membership) (ms : List Membership) → tc ≡ some m.team_canonical → First tc (m ∷ ms) m
  further :
      (m n : Membership) (ms : List Membership)
      → tc ≢ some m.team_canonical
      → First tc ms n
      → First tc (m ∷ ms) n

-- The user is an administrator, or the first membership in the team has a role that is not empty and
-- ranks as high as the one that is asked for.
pub data HasRole (s : Session) (tc : Option String) (required : String) : Type 0 where
  as_admin : (u : User) → s.user ≡ some u → u.admin ≡ true → HasRole s tc required
  as_member :
      (u : User) (m : Membership) (have need : ℕ)
      → s.user ≡ some u
      → First tc (or_empty u.memberships) m
      → m.role ≢ ""
      → rank m.role ≡ some have
      → rank required ≡ some need
      → need ≤ have
      → HasRole s tc required

role_level-rank : (r : String) → role_level r ≡ rank r
unfolding role_level
role_level-rank r = elim (Bool-cases (r == "public")) [
  | inl a ↦ rw a refl
  | inr a ↦ elim (Bool-cases (r == "read")) [
    | inl b ↦ rw (a, b) refl
    | inr b ↦ elim (Bool-cases (r == "write")) [
      | inl c ↦ rw (a, b, c) refl
      | inr c ↦ elim (Bool-cases (r == "maintain")) [
        | inl d ↦ rw (a, b, c, d) refl
        | inr d ↦ elim (Bool-cases (r == "admin")) [
          | inl e ↦ rw (a, b, c, d, e) refl
          | inr e ↦ rw (a, b, c, d, e) refl
        ]
      ]
    ]
  ]
]

is_team_iff : (tc : Option String) (x : String) → (is_team tc x ≡ true) ↔ (tc ≡ some x)
is_team_iff none x = (λ h. cc, λ h. cc)
is_team_iff (some t) x =
    (λ h. ap some (sym ((==_iff x t).0 h)), λ h. let e : t ≡ x = cc in (==_iff x t).1 (sym e))

other_team :
    (tc : Option String) (m : Membership)
    → tc ≢ some m.team_canonical
    → is_team tc m.team_canonical ≡ false
other_team tc m d = elim (Bool-cases (is_team tc m.team_canonical)) [
  | inl e ↦ absurd (d ((is_team_iff tc m.team_canonical).0 e))
  | inr e ↦ e
]

role_in_nothing : (tc : Option String) → role_in [] tc ≡ none
unfolding role_in
role_in_nothing tc = refl

given_rank :
    (r : String) (o : Option ℕ) → is_inherited r ≡ false → (n : ℕ) × (lowest_or_none r o ≡ some n)
given_rank r none i = (0, rw i refl)
given_rank r (some n) i = (n, refl)

not_inherited : (r : String) → is_inherited r ≡ false → (n : ℕ) × (role_level r ≡ some n)
not_inherited r i = let (n, e) = given_rank r (position r roles) i in (n, role_level-rank r ∙ e)

ranked :
    (a b : Option ℕ) (t : Bool)
    → (n : ℕ) × (b ≡ some n)
    → level_at_least a b t ≡ true
    → (m : ℕ) × (n : ℕ) × (a ≡ some m) × (b ≡ some n) × (n ≤ m)
ranked a none t (n, e) h = cc
ranked none (some k) t g h = cc
ranked (some m) (some k) t g h = (m, k, refl, refl, ground arith)

role_of_if :
    (b : Bool) (m : Membership) (o : Option Membership)
    → role_of (if b then some m else o) ≡ (if b then some m.role else role_of o)
role_of_if true m o = refl
role_of_if false m o = refl

role_in-cons :
    (m : Membership) (ms : List Membership) (tc : Option String)
    → role_in (m ∷ ms) tc ≡ (if is_team tc m.team_canonical then some m.role else role_in ms tc)
unfolding role_in
role_in-cons m ms tc = role_of_if (is_team tc m.team_canonical) m _

first_of_two :
    (b : Bool) (x : String) (o : Option String) (r : String)
    → (if b then some x else o) ≡ some r
    → ((b ≡ true) × (x ≡ r)) ⊎ ((b ≡ false) × (o ≡ some r))
first_of_two true x o r h = inl (refl, cc)
first_of_two false x o r h = inr (refl, h)

role_in-First :
    (ms : List Membership) (tc : Option String) (r : String)
    → role_in ms tc ≡ some r
    → (m : Membership) × First tc ms m × (m.role ≡ r)
role_in-First [] tc r h = let e : role_in [] tc ≡ none = role_in_nothing tc in cc
role_in-First (m ∷ ms) tc r h =
    elim (first_of_two (is_team tc m.team_canonical) m.role (role_in ms tc) r
      (sym (role_in-cons m ms tc) ∙ h)) [
        | inl (e, f) ↦ (m, here m ms ((is_team_iff tc m.team_canonical).0 e), f)
        | inr (e, f) ↦
            let (n, g, k) = role_in-First ms tc r f in
            (n, further m n ms (λ l. let t = (is_team_iff tc m.team_canonical).1 l in cc) g, k)
      ]

First-role_in :
    (tc : Option String) (ms : List Membership) (m : Membership)
    → First tc ms m
    → role_in ms tc ≡ some m.role
First-role_in tc _ _ (here m ms e) =
    role_in-cons m ms tc
    ∙ ap (λ b. if b then some m.role else role_in ms tc) ((is_team_iff tc m.team_canonical).1 e)
First-role_in tc _ _ (further m n ms d f) =
    role_in-cons m ms tc
    ∙ (ap (λ b. if b then some m.role else role_in ms tc) (other_team tc m d)
        ∙ First-role_in tc ms n f)

at_least_iff :
    (r q : String)
    → is_inherited q ≡ false
    → at_least r q ≡ true
    → (m : ℕ) × (n : ℕ) × (role_level r ≡ some m) × (role_level q ≡ some n) × (n ≤ m)
unfolding at_least
at_least_iff r q i h = ranked (role_level r) (role_level q) _ (not_inherited q i) h

levels_of :
    (a b : Option ℕ) (t : Bool) (m n : ℕ)
    → a ≡ some m
    → b ≡ some n
    → n ≤ m
    → level_at_least a b t ≡ true
levels_of a b t m n e f le = rw (e, f) (ground arith)

at_least_of :
    (r q : String) (m n : ℕ)
    → role_level r ≡ some m
    → role_level q ≡ some n
    → n ≤ m
    → at_least r q ≡ true
unfolding at_least
at_least_of r q m n a b le = levels_of (role_level r) (role_level q) _ m n a b le

suffices_iff :
    (o : Option String) (required : String)
    → is_inherited required ≡ false
    → role_suffices o required ≡ true
    → (r : String) × (m : ℕ) × (n : ℕ) × (o ≡ some r)
      × (r ≢ "")
      × (role_level r ≡ some m)
      × (role_level required ≡ some n)
      × (n ≤ m)
unfolding role_suffices
suffices_iff none required i h = cc
suffices_iff (some r) required i h =
    let (m, n, a, b, le) = at_least_iff r required i (ground arith) in
    (r, m, n, refl, (λ e. ground (arith, eq_iff r "", h)), a, b, le)

suffices_of :
    (r required : String) (m n : ℕ)
    → r ≢ ""
    → role_level r ≡ some m
    → role_level required ≡ some n
    → n ≤ m
    → role_suffices (some r) required ≡ true
unfolding role_suffices
suffices_of r required m n ne a b le =
    rw (at_least_of r required m n a b le) (ground (arith, eq_iff r ""))

-- If the role that is asked for is not named as a property that every object inherits, then
-- `hasTeamRole` answers yes exactly to administrators and to those whose first membership in the
-- team has a role that is not empty, is not so named, and stands in the row public, read, write,
-- maintain, admin at or behind the one that is asked for; a name that is not in the row counts as
-- the first.
pub has_team_role_iff :
    (s : Session) (tc : Option String) (required : String)
    → is_inherited required ≡ false
    → (has_team_role s tc required ≡ true) ↔ HasRole s tc required
unfolding has_team_role get_team_role
has_team_role_iff s tc required i = (to, from)
  where
    to : has_team_role s tc required ≡ true → HasRole s tc required
    to h = elim (Option-cases s.user) [
      | inl e ↦ cc (rw (e, has_team_role) at h)
      | inr (u, e) ↦ elim (Bool-cases u.admin) [
        | inl a ↦ as_admin u e a
        | inr a ↦
            let (r, m, n, k, ne, x, y, le) =
              suffices_iff (role_in (or_empty u.memberships) tc) required i
                (ground (arith, h, e, a)) in
            let (member, f, g) = role_in-First (or_empty u.memberships) tc r k in
            as_member u member m n e f (λ l. ne (sym g ∙ l))
              (sym (role_level-rank member.role) ∙ (ap role_level g ∙ x))
              (sym (role_level-rank required) ∙ y) le
      ]
    ]

    from : HasRole s tc required → has_team_role s tc required ≡ true
    from (as_admin u e a) = ground arith
    from (as_member u member m n e f ne x y le) =
        let k = First-role_in tc (or_empty u.memberships) member f in
        let l =
          suffices_of member.role required m n ne (role_level-rank member.role ∙ x)
            (role_level-rank required ∙ y) le in
        ground (arith, e, k, l)
