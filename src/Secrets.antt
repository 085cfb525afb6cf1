-- ===== src/Secrets.antt =====
-- The secrets and plain values of a team or a pipeline (components/Secrets.js): the set that a pipeline
-- sees, and the row that adds an entry. `localeCompare` and `trim` are the browser's.
pub mod Merge
pub mod Adding
mod Tests
use pikoci.Base.{
  ℕ, suc, String, Bool, true, false, not, ◌&&◌, ◌||◌, Option, none, some, List, [], ◌∷◌, ◌++◌, map,
  filter, all, any, length, leb, or_empty, contains, text_equality, number_equality, ◌==◌,
  if◌then◌else◌,
}
use pikoci.Sort.{sort}
use pikoci.Text.{Chars, codes, is_digit}

pub record Entry : Type 0 where
  pub canonical : String
  pub kind : String

pub record Row : Type 0 where
  pub entry : Entry
  pub inherited : Bool
  pub overrides : Bool

unfoldable pub canonicals : List Entry → List String
canonicals entries = map (λ e. e.canonical) entries

unfoldable pub own_row : List Entry → Entry → Row
own_row team e = record {
  entry = e;
  inherited = false;
  overrides = contains (canonicals team) e.canonical;
}

unfoldable pub inherited_row : Entry → Row
inherited_row e = record { entry = e; inherited = true; overrides = false }

-- `precedes a b` says that `a.localeCompare(b)` is negative.
unfoldable pub merge_entries : (String → String → Bool) → List Entry → List Entry → List Row
merge_entries precedes team pipeline =
    let own = map (own_row team) pipeline in
    let rest = filter (λ e. not (contains (canonicals pipeline) e.canonical)) team in
    sort (λ a b. precedes a.entry.canonical b.entry.canonical) (own ++ map inherited_row rest)

pub record Loaded : Type 0 where
  pub entries : List Row
  pub own_entries : List Entry

-- The rows of a team have neither flag.
unfoldable pub plain_row : Entry → Row
plain_row e = record { entry = e; inherited = false; overrides = false }

unfoldable pub load_team : Option (List Entry) → Option Loaded
load_team none = none
load_team (some team) = some (record { entries = map plain_row team; own_entries = team })

-- `loadEntries`: the answers are `none` where a request fails, and the result is where it rejects.
unfoldable pub load_entries :
    (String → String → Bool)
    → Option String
    → Option (List Entry)
    → Option (List Entry)
    → Option Loaded
load_entries precedes none own_answer team_answer = load_team team_answer
load_entries precedes (some pn) own_answer team_answer =
    if pn == ""
    then load_team team_answer
    else some (record {
      entries = merge_entries precedes (or_empty team_answer) (or_empty own_answer);
      own_entries = or_empty own_answer;
    })

-- `[A-Za-z_]`
unfoldable pub is_first : ℕ → Bool
is_first c = (leb b'A' c && leb c b'Z') || ((leb b'a' c && leb c b'z') || c == b'_')

-- `NAME_RE.test(name)`
unfoldable pub is_name : Chars → Bool
is_name [] = false
is_name (c ∷ cs) = is_first c && (all (λ d. is_first d || is_digit d) cs && leb (length cs) 254)

-- The state of `NewEntryRow`.
pub record NewEntry : Type 0 where
  pub name : String
  pub value : String
  pub is_secret : Bool
  pub saving : Bool

-- What `onAdd` is called with.
pub record Addition : Type 0 where
  pub name : String
  pub value : String
  pub kind : String

-- `duplicate` of the entries of the scope, `willOverride` of those of the team.
unfoldable pub is_taken : List Entry → String → Bool
is_taken entries name = any (λ e. e.canonical == name) entries

unfoldable pub can_save : (String → String) → List Entry → NewEntry → Bool
can_save trim existing s =
    is_name (codes (trim s.name))
    && (not (is_taken existing (trim s.name)) && (not (s.value == "") && not s.saving))

unfoldable pub will_override : (String → String) → List Entry → NewEntry → Bool
will_override trim team s = is_taken team (trim s.name)

unfoldable pub addition : (String → String) → NewEntry → Addition
addition trim s = record {
  name = trim s.name;
  value = s.value;
  kind = if s.is_secret then "secret" else "plain";
}

-- `submit`, up to the call of `onAdd`.
unfoldable pub submit : (String → String) → List Entry → NewEntry → NewEntry × Option Addition
submit trim existing s =
    if can_save trim existing s
    then (record s { saving = true }, some (addition trim s))
    else (s, none)

-- `.catch(() => setSaving(false))`
unfoldable pub add_failed : NewEntry → NewEntry
add_failed s = record s { saving = false }
