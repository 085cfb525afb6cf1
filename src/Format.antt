-- ===== src/Format.antt =====
-- Texts that the page shows (utils.js): durations, logs, times and versions. The text of a number
-- is JavaScript's. A duration counts nanoseconds below 2 ^ 53, where divisions are exact before
-- `Math.floor`.
pub mod Durations
pub mod Logs
mod Tests
use pikoci.Base.{
  ℕ, suc, ◌+◌, ◌-◌, ◌*◌, ◌/◌, String, Bool, true, false, Option, none, some, List, [], ◌∷◌, ◌++◌,
  map, length, find, ltb, contains, number_equality, text_equality, ◌==◌, if◌then◌else◌,
}
use pikoci.Text.{Chars, codes, same_chars, split, join}

abbrev pub second : ℕ
second = 1000000000

abbrev pub minute : ℕ
minute = 60000000000

abbrev pub hour : ℕ
hour = 3600000000000

-- `n || "00"`, then a nought in front of a text of one character.
unfoldable pub pad : (ℕ → Chars) → ℕ → Chars
pad show n = if n == 0 then codes "00" else if length (show n) == 1 then b'0' ∷ show n else show n

unfoldable pub hours_of : ℕ → ℕ
hours_of d = d / hour

unfoldable pub minutes_of : ℕ → ℕ
minutes_of d = (d - hours_of d * hour) / minute

unfoldable pub seconds_of : ℕ → ℕ
seconds_of d = ((d - hours_of d * hour) - minutes_of d * minute) / second

unfoldable pub duration_to_string : (ℕ → Chars) → ℕ → Chars
duration_to_string show d =
    if d == 0
    then codes "00:00:00"
    else pad show (hours_of d) ++ b':' ∷ (pad show (minutes_of d) ++ b':' ∷ pad show (seconds_of d))

-- `parts[parts.length - 1]`
unfoldable pub last_part : List Chars → Chars
last_part [] = []
last_part (part ∷ []) = part
last_part (part ∷ next ∷ rest) = last_part (next ∷ rest)

-- What is left of a line behind its last carriage return.
unfoldable pub process_line : Chars → Chars
process_line line = if contains line b'\r' then last_part (split b'\r' line) else line

-- The empty text is returned as it is; there `split` and `join` do the same.
unfoldable pub process_logs : Chars → Chars
process_logs text = elim text [
  | [] ↦ []
  | c ∷ cs ↦ join b'\n' (map process_line (split b'\n' (c ∷ cs)))
]

-- `pikoTimeAgo` of a date that is given by its age in seconds, nought if it lies ahead; `none` is a
-- missing date, or one of the year one.
unfoldable pub time_ago : (ℕ → Chars) → Option ℕ → Chars
time_ago show none = codes "never"
time_ago show (some seconds) =
    if ltb seconds 60
    then codes "just now"
    else if ltb seconds 3600
    then show (seconds / 60) ++ codes "m ago"
    else if ltb seconds 86400
    then show (seconds / 3600) ++ codes "h ago"
    else show (seconds / 86400) ++ codes "d ago"

-- A value in the metadata of a version: a text, or something else, which is given by whether a
-- condition takes it for true and by how it is shown.
pub data Metadata : Type 0 where
  text : Chars → Metadata
  other : (truthy : Bool) (shown : Chars) → Metadata

-- What `versionRef` is called with: nothing, a text, or an object with its keys in their order.
pub data VersionValue : Type 0 where
  absent : VersionValue
  plain : Chars → VersionValue
  fields : List (Chars × Metadata) → VersionValue

abbrev pub shown_as : Metadata → Chars
shown_as (text t) = t
shown_as (other truthy t) = t

-- `if (v.key) return v.key`
unfoldable pub truthy_field : Chars → List (Chars × Metadata) → Option Chars
truthy_field key fs = elim (find (λ f. same_chars key f.0) fs) [
  | none ↦ none
  | some (_, text []) ↦ none
  | some (_, text (c ∷ t)) ↦ some (c ∷ t)
  | some (_, other truthy t) ↦ if truthy then some t else none
]

-- `if (typeof v.key === 'string') return v.key`
unfoldable pub text_field : Chars → List (Chars × Metadata) → Option Chars
text_field key fs = elim (find (λ f. same_chars key f.0) fs) [
  | none ↦ none
  | some (_, text t) ↦ some t
  | some (_, other _ _) ↦ none
]

abbrev first_shown_field : List (Chars × Metadata) → Chars
first_shown_field [] = []
first_shown_field ((key, m) ∷ fs) = key ++ codes ": " ++ shown_as m

abbrev or_field : Option Chars → Chars → Chars
or_field none t = t
or_field (some s) t = s

unfoldable pub version_ref : VersionValue → Chars
version_ref absent = []
version_ref (plain t) = t
version_ref (fields fs) = or_field (truthy_field (codes "ref") fs) (
    or_field (truthy_field (codes "digest") fs) (
      or_field (truthy_field (codes "tag") fs)
        (or_field (text_field (codes "version") fs) (first_shown_field fs))))
