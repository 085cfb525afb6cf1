-- ===== src/Follow/Search.antt =====
-- The resource that a version in the address belongs to.
use pikoci.Base.{
  ℕ, Bool, true, false, Option, none, some, List, [], ◌∷◌, String, ◌≡◌, refl, ap, ◌∙◌, find, map,
  if◌then◌else◌, ◌==◌, number_equality, ◌||◌, arith,
}
use pikoci.Follow.{
  Track, PathData, Attempt, Show, apply_version_scope, try_next, has_path, resolve_to,
  attempt_answered, metadata_ref, answer_attempt, resolve_address, is_empty, Event, loaded,
  attempted, step, run, opened,
}

-- Each attempt is answered with the path of its resource.
abbrev pub answers : (String → Option PathData) → List String → List Event
answers paths rs = map (λ r. attempted (paths r)) rs

-- What is followed when a resource was found.
abbrev pub found :
    (List (String × String) → String)
    → (String → Option PathData)
    → ℕ
    → Option String
    → Option Track
found version_ref paths v none = none
found version_ref paths v (some r) = elim (paths r) [
  | none ↦ none
  | some d ↦ some (record { resource = r; version = v; ref = metadata_ref version_ref d.metadata })
]

-- Without an attempt the answers change nothing.
late_answers :
    (version_ref : List (String × String) → String) (paths : String → Option PathData)
    (rs : List String) (s : Show)
    → s.attempt ≡ none
    → run version_ref (answers paths rs) s ≡ s
unfolding run step answer_attempt
late_answers version_ref paths [] s e = refl
late_answers version_ref paths (r ∷ rs) s e =
    ap (λ o. run version_ref (answers paths rs) (answer_attempt version_ref o (paths r) s)) e
    ∙ late_answers version_ref paths rs s e

resolved_track :
    (version_ref : List (String × String) → String) (paths : String → Option PathData)
    (rs : List String) (a : Attempt) (o : Option PathData) (s : Show)
    → has_path o ≡ true
    → (run version_ref (answers paths rs) (resolve_to version_ref a o s)).tracked ≡ elim o [
      | none ↦ none
      | some d ↦ some (record {
        resource = a.resource;
        version = a.version;
        ref = metadata_ref version_ref d.metadata;
      })
    ]
unfolding resolve_to has_path apply_version_scope
resolved_track version_ref paths rs a none s h = cc
resolved_track version_ref paths rs a (some d) s h =
    ap (λ t. t.tracked)
      (late_answers version_ref paths rs (resolve_to version_ref a (some d) s) refl)

-- One answer, and the rest of the search.
one_attempt :
    (version_ref : List (String × String) → String) (paths : String → Option PathData) (a : Attempt)
    (t : Show) (b : Bool)
    → has_path (paths a.resource) ≡ b
    → (run version_ref (answers paths a.others) (try_next a.version a.others t)).tracked
      ≡ found version_ref paths a.version (find (λ r. has_path (paths r)) a.others)
    → (run version_ref (answers paths a.others) (
        if b
        then resolve_to version_ref a (paths a.resource) t
        else try_next a.version a.others t)).tracked
      ≡ found version_ref paths a.version
          (if b then some a.resource else find (λ r. has_path (paths r)) a.others)
one_attempt version_ref paths a t true h k =
    resolved_track version_ref paths a.others a (paths a.resource) t h
one_attempt version_ref paths a t false h k = k

attempts_track :
    (version_ref : List (String × String) → String) (paths : String → Option PathData) (v : ℕ)
    (rs : List String) (s : Show)
    → s.tracked ≡ none
    → (run version_ref (answers paths rs) (try_next v rs s)).tracked
      ≡ found version_ref paths v (find (λ r. has_path (paths r)) rs)
unfolding run step try_next answer_attempt attempt_answered
attempts_track version_ref paths v [] s e = e
attempts_track version_ref paths v (r ∷ rs) s e =
    let a : Attempt = record { version = v; resource = r; others = rs } in
    let t : Show = record s { attempt = some a } in
    one_attempt version_ref paths a t (has_path (paths r)) refl
      (attempts_track version_ref paths v rs t e)

searched :
    (version_ref : List (String × String) → String) (paths : String → Option PathData) (v : ℕ)
    (r : String) (rs : List String) (b : Bool) (s : Show)
    → s.tracked ≡ none
    → s.attempt ≡ none
    → (run version_ref (answers paths (r ∷ rs)) (
        if b || (false || false)
        then s
        else try_next v (r ∷ rs) (record s { resolved = true }))).tracked
      ≡ (if b then none else found version_ref paths v (find (λ q. has_path (paths q)) (r ∷ rs)))
searched version_ref paths v r rs true s e n =
    ap (λ t. t.tracked) (late_answers version_ref paths (r ∷ rs) s n) ∙ e
searched version_ref paths v r rs false s e n =
    attempts_track version_ref paths v (r ∷ rs) (record s { resolved = true }) e

-- Whatever the resources answer, after the resources were loaded at an address with a version
-- other than 0 and each attempt was answered, the version is followed as one of the first resource
-- whose answer has a path, with the text of its data, and none is followed if none has; version 0
-- is not followed.
pub answers-tracked :
    (version_ref : List (String × String) → String) (paths : String → Option PathData) (v : ℕ)
    (rs : List String)
    → (run version_ref (loaded rs ∷ answers paths rs) (opened (some v))).tracked
      ≡ (if v == 0 then none else found version_ref paths v (find (λ r. has_path (paths r)) rs))
unfolding run step resolve_address is_empty
answers-tracked version_ref paths v [] = ground arith
answers-tracked version_ref paths v (r ∷ rs) =
    searched version_ref paths v r rs (v == 0) (opened (some v)) refl refl
