-- ===== src/Providers/History.antt =====
-- When the canonical name was given by what was done, and not by the name.
use mathlib.Core.Path.{subst}
use pikoci.Base.{
  ℕ, Bool, true, false, Option, none, some, List, [], ◌∷◌, ◌++◌, ◌≡◌, refl, if◌then◌else◌, ◌==◌,
  number_equality, String,
}
use pikoci.Text.{Chars}
use pikoci.Providers.Slug.{slugify}
use pikoci.Providers.Form.{
  Provider, Form, Preset, Admin, preset_of, provider_presets, new_form, choose_preset, type_name,
  call_of, on_form, add_pressed, edit_pressed, submit, unload, submit_answered, deleted, Event,
  loaded, new_pressed, edited, cancelled, preset_chosen, name_typed, canonical_typed,
  settings_typed, client_typed, enabled_set, submitted, submit_done, delete_pressed, delete_done,
  step, run, opened,
}
use pikoci.Providers.Canonical.{IsFine, form-IsFollowing}

-- Whether the form that is there was opened for a provider, or had its canonical name typed since it
-- was opened and since a template was chosen for a new provider.
abbrev pub was_given : Event → Admin → Bool → Bool
was_given new_pressed s given = false
was_given (edited p) s given = elim s.form [ none ↦ true | some _ ↦ given ]
was_given (preset_chosen key) s given = elim s.edit_provider [ none ↦ false | some _ ↦ given ]
was_given (canonical_typed c) s given = true
was_given _ s given = given

module _ (lower : Chars → Chars) where
  abbrev pub given_after : List Event → Admin → Bool → Bool
  given_after [] s given = given
  given_after (e ∷ events) s given = given_after events (step lower e s) (was_given e s given)

  -- A name that was not given is marked as such.
  abbrev IsMarked : Bool → Option Form → Type 0
  IsMarked given none = Unit
  IsMarked given (some f) = given ≡ false → f.canonical_touched ≡ false

  on_form-IsMarked :
      (given : Bool) (change : Form → Form) (o : Option Form)
      → ((f : Form) → (change f).canonical_touched ≡ f.canonical_touched)
      → IsMarked given o
      → IsMarked given (on_form change o)
  unfolding on_form
  on_form-IsMarked given change none k h = tt
  on_form-IsMarked given change (some f) k h = λ e. rw (k f) (h e)

  any-IsMarked : (o : Option Form) → IsMarked true o
  any-IsMarked none = tt
  any-IsMarked (some f) = λ e. cc

  preset_touched :
      (o : Option Preset) (f : Form) → (choose_preset lower o f).canonical_touched ≡ false
  unfolding choose_preset
  preset_touched none f = refl
  preset_touched (some p) f = refl

  chosen-IsMarked :
      (given : Bool) (o : Option Preset) (f : Option Form)
      → IsMarked given (on_form (choose_preset lower o) f)
  unfolding on_form
  chosen-IsMarked given o none = tt
  chosen-IsMarked given o (some f) = λ e. preset_touched o f

  preset-IsMarked :
      (given : Bool) (o : Option Provider) (key : String) (s : Admin)
      → IsMarked given s.form
      → IsMarked
          (elim o as (λ _. Bool) [ none ↦ false | some _ ↦ given ])
          (elim o as (λ _. Admin) [
            | none ↦ record s {
              form = on_form (choose_preset lower (preset_of key provider_presets)) s.form;
            }
            | some _ ↦ s
          ]).form
  preset-IsMarked given none key s h = chosen-IsMarked false _ s.form
  preset-IsMarked given (some p) key s h = h

  add_pressed-IsMarked : (mount : ℕ) (o : Option Form) → IsMarked false (add_pressed mount o)
  unfolding add_pressed new_form
  add_pressed-IsMarked mount none = λ e. refl
  add_pressed-IsMarked mount (some f) = tt

  edit_pressed-IsMarked :
      (given : Bool) (mount : ℕ) (p : Provider) (o : Option Form)
      → IsMarked given o
      → IsMarked (elim o as (λ _. Bool) [ none ↦ true | some _ ↦ given ]) (edit_pressed mount p o)
  unfolding edit_pressed
  edit_pressed-IsMarked given mount p none h = λ e. cc
  edit_pressed-IsMarked given mount p (some f) h = h

  unload_touched : (mount : ℕ) (f : Form) → (unload mount f).canonical_touched ≡ f.canonical_touched
  unfolding unload
  unload_touched mount f = either_touched (f.mount == mount)
    where
      either_touched :
          (b : Bool)
          → (if b then record f { loading = false } else f).canonical_touched ≡ f.canonical_touched
      either_touched true = refl
      either_touched false = refl

  submit-IsMarked :
      (given : Bool) (o : Option Form) (s : Admin)
      → IsMarked given o
      → IsMarked given s.form
      → IsMarked given (submit o s).form
  unfolding submit
  submit-IsMarked given none s h k = k
  submit-IsMarked given (some f) s h k = either_admin f.loading
    where
      either_admin :
          (b : Bool)
          → IsMarked given
              (if b then s else record s {
                form = some (record f { loading = true });
                calls = s.calls ++ call_of s.edit_provider f ∷ [];
                waiting = s.waiting ++ f.mount ∷ [];
              }).form
      either_admin true = k
      either_admin false = h

  submit_answered-IsMarked :
      (given good : Bool) (ms : List ℕ) (s : Admin)
      → IsMarked given s.form
      → IsMarked given (submit_answered good ms s).form
  unfolding submit_answered
  submit_answered-IsMarked given good [] s h = h
  submit_answered-IsMarked given true (m ∷ ms) s h = tt
  submit_answered-IsMarked given false (m ∷ ms) s h =
      on_form-IsMarked given (unload m) s.form (unload_touched m) h

  deleted-IsMarked :
      (given good : Bool) (ds : List (List Provider × Chars)) (s : Admin)
      → IsMarked given s.form
      → IsMarked given (deleted good ds s).form
  unfolding deleted
  deleted-IsMarked given good [] s h = h
  deleted-IsMarked given good ((seen, c) ∷ ds) s h = h

  step-IsMarked :
      (given : Bool) (e : Event) (s : Admin)
      → IsMarked given s.form
      → IsMarked (was_given e s given) (step lower e s).form
  unfolding step type_name
  step-IsMarked given (loaded ps) s h = h
  step-IsMarked given new_pressed s h = add_pressed-IsMarked s.mounts s.form
  step-IsMarked given (edited p) s h = edit_pressed-IsMarked given s.mounts p s.form h
  step-IsMarked given cancelled s h = tt
  step-IsMarked given (preset_chosen key) s h = preset-IsMarked given s.edit_provider key s h
  step-IsMarked given (name_typed name) s h = on_form-IsMarked given _ s.form (λ f. refl) h
  step-IsMarked given (canonical_typed c) s h = any-IsMarked _
  step-IsMarked given (settings_typed t) s h = on_form-IsMarked given _ s.form (λ f. refl) h
  step-IsMarked given (client_typed id secret) s h = on_form-IsMarked given _ s.form (λ f. refl) h
  step-IsMarked given (enabled_set b) s h = on_form-IsMarked given _ s.form (λ f. refl) h
  step-IsMarked given submitted s h = submit-IsMarked given s.form s h h
  step-IsMarked given (submit_done good) s h = submit_answered-IsMarked given good s.waiting s h
  step-IsMarked given (delete_pressed c) s h = h
  step-IsMarked given (delete_done good) s h = deleted-IsMarked given good s.deleting s h

  run-IsMarked :
      (events : List Event) (s : Admin) (given : Bool)
      → IsMarked given s.form
      → IsMarked (given_after events s given) (run lower events s).form
  unfolding run
  run-IsMarked [] s given h = h
  run-IsMarked (e ∷ events) s given h =
      run-IsMarked events (step lower e s) (was_given e s given) (step-IsMarked given e s h)

  slug_of_untouched :
      (given : Bool) (empty_law : lower [] ≡ []) (o : Option Form) (f : Form)
      → o ≡ some f
      → given ≡ false
      → IsMarked given o
      → IsFine lower empty_law o
      → f.canonical ≡ slugify lower f.name
  slug_of_untouched given empty_law none f e g h k = cc
  slug_of_untouched given empty_law (some u) f e g h k =
      let same : u ≡ f = cc in subst (λ v. v.canonical ≡ slugify lower v.name) same (k (h g))

  -- If the lower case of nothing is nothing, then a form that is shown has the slug of its name as
  -- the canonical name, unless it was opened for a provider, or the canonical name was typed since
  -- it was opened and since a template was chosen for a new provider.
  pub canonical_follows :
      lower [] ≡ []
      → (ps : List Provider) (events : List Event) (f : Form)
      → (run lower events (opened ps)).form ≡ some f
      → given_after events (opened ps) false ≡ false
      → f.canonical ≡ slugify lower f.name
  canonical_follows empty_law ps events f e g =
      slug_of_untouched _ empty_law _ f e g (run-IsMarked events (opened ps) false tt)
        (form-IsFollowing lower empty_law ps events)
