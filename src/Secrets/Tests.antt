-- ===== src/Secrets/Tests.antt =====
-- Runs of the secrets.
use pikoci.Base.{
  String, Bool, true, false, ◌≡◌, refl, List, [], ◌∷◌, map, filter, any, ◌==◌, contains,
  text_equality, if◌then◌else◌, number_equality,
}
use pikoci.Text.{codes}
use pikoci.Sort.{sort, insert}
use pikoci.Secrets.{
  Entry, NewEntry, canonicals, own_row, inherited_row, merge_entries, is_name, is_first,
}
use pikoci.Secrets.Merge.{own, from_team, is_named, row_named, merge_entries_precedence}

abbrev team_entries : List Entry
team_entries =
    record { canonical = "A"; kind = "plain" } ∷ record { canonical = "B"; kind = "plain" } ∷ []

abbrev pipeline_entries : List Entry
pipeline_entries = record { canonical = "B"; kind = "secret" } ∷ []

-- An order of texts in which no two are apart.
abbrev no_order : String → String → Bool
no_order a b = false

abbrev typed_entry : NewEntry
typed_entry = record { name = "TOKEN"; value = "x"; is_secret = true; saving = false }

abbrev as_typed : String → String
as_typed text = text

merged_names :
    map {B = String × Bool × Bool}
      (λ r. (r.entry.canonical, r.inherited, r.overrides))
      (merge_entries no_order team_entries pipeline_entries)
    ≡ ("B", false, true) ∷ ("A", true, false) ∷ []
unfolding merge_entries sort insert own_row inherited_row canonicals contains
merged_names = refl

merge_entries_precedence_example :
    filter (row_named "B") (merge_entries no_order team_entries pipeline_entries) ≡ (
      if any (λ e. e.canonical == "B") pipeline_entries
      then map (own team_entries) (filter (is_named "B") pipeline_entries)
      else map from_team (filter (is_named "B") team_entries))
merge_entries_precedence_example =
    merge_entries_precedence no_order team_entries pipeline_entries "B" (λ s. refl)

token_is_name : is_name (codes "GITHUB_TOKEN") ≡ true
unfolding is_name is_first
token_is_name = refl
