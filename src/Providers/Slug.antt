-- ===== src/Providers/Slug.antt =====
-- `slugify`, on lists of code points. `toLowerCase`, which knows all of Unicode, is a parameter.
use pikoci.Base.{
  ℕ, Bool, true, false, ◌&&◌, ◌||◌, [], ◌∷◌, if◌then◌else◌, ◌==◌, leb, number_equality,
}
use pikoci.Text.{Chars, is_digit}

-- `[a-z0-9]`
unfoldable pub is_plain : ℕ → Bool
is_plain c = (leb b'a' c && leb c b'z') || is_digit c

-- `replace(/[^a-z0-9]+/g, '-')`; the flag says that a run of other characters was begun.
unfoldable pub dash_runs : Bool → Chars → Chars
dash_runs in_run [] = []
dash_runs in_run (c ∷ cs) =
    let plain = dash_runs false cs in
    let other = dash_runs true cs in
    if is_plain c then c ∷ plain else if in_run then other else b'-' ∷ other

-- `replace(/^-|-$/g, '')`, at the start and at the end
unfoldable pub strip_front : Chars → Chars
strip_front [] = []
strip_front (c ∷ cs) = if c == b'-' then cs else c ∷ cs

unfoldable pub strip_back : Chars → Chars
strip_back [] = []
strip_back (c ∷ cs) = elim cs [ [] ↦ if c == b'-' then [] else c ∷ [] | _ ∷ _ ↦ c ∷ strip_back cs ]

unfoldable pub slugify : (Chars → Chars) → Chars → Chars
slugify lower s = strip_back (strip_front (dash_runs false (lower s)))
