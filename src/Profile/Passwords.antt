-- ===== src/Profile/Passwords.antt =====
-- PasswordTab (components/Users.js). Texts are lists of code points.
use pikoci.Base.{
  ℕ, Bool, true, false, not, ◌&&◌, ◌||◌, Option, none, some, List, [], ◌∷◌, ◌++◌, length, ltb,
  if◌then◌else◌, ◌==◌,
}
use pikoci.Text.{Chars, chars_equality}

-- `resp.data`, when it has a token: whether `has_password` is not false.
pub record Refreshed : Type 0 where
  pub has_password : Bool

-- What `changePassword` is called with.
pub record Change : Type 0 where
  pub old_password : Chars
  pub new_password : Chars

pub record Tab : Type 0 where
  pub must_change : Bool
  pub current : Chars
  pub fresh : Chars  -- `newPassword`
  pub confirmed : Chars
  pub has_password : Bool
  pub loading : Bool
  pub calls : List Change
  pub mismatches : ℕ  -- how often the notice of a mismatch was shown
  pub leaving : Bool  -- the timer that goes to the first page was set

-- The button is disabled while the password is too short; it is not while there is none.
unfoldable pub is_short : Chars → Bool
is_short p = ltb 0 (length p) && ltb (length p) 8

-- `onChangePassword`, up to its `await`
unfoldable pub on_change_password : Tab → Tab
on_change_password t =
    if not (t.fresh == t.confirmed)
    then record t { mismatches = Prim.Native.Nat.◌+◌ t.mismatches 1 }
    else record t {
      loading = true;
      calls = t.calls ++ (record { old_password = t.current; new_password = t.fresh }) ∷ [];
    }

unfoldable pub or_before : Bool → Option Refreshed → Bool
or_before b none = b
or_before b (some r) = r.has_password

-- The rest of it; without an answer the call failed.
unfoldable pub changed : Option (Option Refreshed) → Tab → Tab
changed none t = record t { loading = false }
changed (some refreshed) t = record t {
  loading = false;
  has_password = or_before t.has_password refreshed;
  current = [];
  fresh = [];
  confirmed = [];
  leaving = t.leaving || t.must_change;
}

pub data Event : Type 0 where
  current_typed : Chars → Event
  new_typed : Chars → Event
  confirmed_typed : Chars → Event
  refreshed : Refreshed → Event  -- the effect of an old session
  submitted : Event
  answered : Option (Option Refreshed) → Event

unfoldable pub step : Event → Tab → Tab
step (current_typed p) t = if t.has_password then record t { current = p } else t
step (new_typed p) t = record t { fresh = p }
step (confirmed_typed p) t = record t { confirmed = p }
step (refreshed r) t = record t { has_password = r.has_password }
step submitted t = if t.loading || is_short t.fresh then t else on_change_password t
step (answered o) t = if t.loading then changed o t else t

unfoldable pub run : List Event → Tab → Tab
run [] t = t
run (e ∷ events) t = run events (step e t)

abbrev pub opened : Bool → Bool → Tab
opened must_change has_password = record {
  must_change = must_change;
  current = [];
  fresh = [];
  confirmed = [];
  has_password = has_password;
  loading = false;
  calls = [];
  mismatches = 0;
  leaving = false;
}
