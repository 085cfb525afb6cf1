-- ===== src/Follow/Agreement.antt =====
-- The version that is followed, the banner, the list view and the address agree.
use pikoci.Base.{
  ℕ, Option, none, some, List, [], ◌∷◌, String, ◌≡◌, text_equality, ◌⊎◌, number_equality,
}
use pikoci.Follow.{Track, Attempt, Show, Event, chose, cleared, step}

-- A version is chosen or cleared when no answer about a path is waited for.
abbrev pub IsInTurn : Event → Show → Type 0
IsInTurn (chose resource version ref) s = (s.polls ≡ []) × (s.attempt ≡ none)
IsInTurn cleared s = (s.polls ≡ []) × (s.attempt ≡ none)
IsInTurn _ s = Unit

abbrev pub AreInTurn : (List (String × String) → String) → List Event → Show → Type 0
AreInTurn version_ref [] s = Unit
AreInTurn version_ref (e ∷ events) s =
    IsInTurn e s × AreInTurn version_ref events (step version_ref e s)

-- The address has this version, or none.
abbrev pub IsShown : Option ℕ → ℕ → Type 0
IsShown o v = (o ≡ none) ⊎ (o ≡ some v)

pub record IsAgreed (s : Show) : Type 0 where
  pub same_version : (t : Track) → s.tracked ≡ some t → IsShown s.address t.version
  pub quiet : s.tracked ≡ none → (s.banner ≡ none) × (s.scope ≡ none) × (s.polls ≡ [])
  pub tried : (a : Attempt) → s.attempt ≡ some a → IsShown s.address a.version
  pub one_version :
      (t : Track) (a : Attempt) → s.tracked ≡ some t → s.attempt ≡ some a → a.version ≡ t.version

-- The version of an attempt, if there is one.
abbrev version_of : Option Attempt → Option ℕ
version_of none = none
version_of (some a) = some a.version

abbrev tracked_version : Option Track → Option ℕ
tracked_version none = none
tracked_version (some t) = some t.version
