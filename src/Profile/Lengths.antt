-- ===== src/Profile/Lengths.antt =====
-- The passwords that are sent.
use pikoci.Base.{
  ◌≤◌, Bool, true, false, not, ◌||◌, Option, none, some, List, [], ◌∷◌, ◌≡◌, refl, arith, ◌⊎◌, inl,
  inr, All, All-append, length, if◌then◌else◌, ◌==◌,
}
use pikoci.Text.{Chars, chars_equality}
use pikoci.Profile.Passwords.{
  Tab, Change, Refreshed, is_short, on_change_password, changed, Event, current_typed, new_typed,
  confirmed_typed, refreshed, submitted, answered, step, run, opened,
}

-- There is no new password, or it has eight characters.
abbrev pub IsLong : Change → Type 0
IsLong c = (c.new_password ≡ []) ⊎ (8 ≤ length c.new_password)

long : (p : Chars) → is_short p ≡ false → (p ≡ []) ⊎ (8 ≤ length p)
unfolding is_short
long [] h = inl refl
long (c ∷ p) h = inr (ground (arith, h))

IsFine : Tab → Type 0
IsFine t = All IsLong t.calls

either_tab :
    (b : Bool) (s t : Tab)
    → (b ≡ true → IsFine s)
    → (b ≡ false → IsFine t)
    → IsFine (if b then s else t)
either_tab true s t h k = h refl
either_tab false s t h k = k refl

on_change_password-IsFine :
    (t : Tab) → is_short t.fresh ≡ false → IsFine t → IsFine (on_change_password t)
unfolding on_change_password IsFine
on_change_password-IsFine t e h =
    either_tab (not (t.fresh == t.confirmed)) _ _ (λ k. h)
      (λ k. All-append IsLong t.calls _ h (long t.fresh e, tt))

changed-IsFine : (o : Option (Option Refreshed)) (t : Tab) → IsFine t → IsFine (changed o t)
unfolding changed IsFine
changed-IsFine none t h = h
changed-IsFine (some r) t h = h

step-IsFine : (e : Event) (t : Tab) → IsFine t → IsFine (step e t)
unfolding step IsFine
step-IsFine (current_typed p) t h = either_tab t.has_password _ t (λ e. h) (λ e. h)
step-IsFine (new_typed p) t h = h
step-IsFine (confirmed_typed p) t h = h
step-IsFine (refreshed r) t h = h
step-IsFine submitted t h =
    either_tab (t.loading || is_short t.fresh) t (on_change_password t) (λ e. h)
      (λ e. on_change_password-IsFine t (ground (arith, e)) h)
step-IsFine (answered o) t h =
    either_tab t.loading (changed o t) t (λ e. changed-IsFine o t h) (λ e. h)

run-IsFine : (events : List Event) (t : Tab) → IsFine t → IsFine (run events t)
unfolding run
run-IsFine [] t h = h
run-IsFine (e ∷ events) t h = run-IsFine events (step e t) (step-IsFine e t h)

-- Every new password that is sent is empty or has eight characters at least.
pub calls-IsLong :
    (must_change has_password : Bool) (events : List Event)
    → All IsLong (run events (opened must_change has_password)).calls
unfolding IsFine
calls-IsLong must_change has_password events =
    run-IsFine events (opened must_change has_password) tt
