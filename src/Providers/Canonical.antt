-- ===== src/Providers/Canonical.antt =====
-- The canonical name follows the name until the form is marked as touched.
use pikoci.Base.{
  ℕ, Bool, true, false, Option, none, some, List, [], ◌∷◌, ◌++◌, String, ◌≡◌, refl, sym, ap,
  if◌then◌else◌, ◌==◌, number_equality,
}
use pikoci.Text.{Chars}
use pikoci.Providers.Slug.{slugify, dash_runs, strip_front, strip_back}
use pikoci.Providers.Form.{
  Provider, Form, Preset, Admin, preset_of, provider_presets, new_form, choose_preset, type_name,
  type_canonical, call_of, on_form, add_pressed, edit_pressed, submit, unload, submit_answered,
  deleted, Event, loaded, new_pressed, edited, cancelled, preset_chosen, name_typed,
  canonical_typed, settings_typed, client_typed, enabled_set, submitted, submit_done,
  delete_pressed, delete_done, step, run, opened,
}

module _ (lower : Chars → Chars) (empty_law : lower [] ≡ []) where
  blank_slug : slugify lower [] ≡ []
  unfolding slugify dash_runs strip_front strip_back
  blank_slug = ap (λ t. strip_back (strip_front (dash_runs false t))) empty_law

  -- Unless the form is marked as touched, the canonical name is the slug of the name.
  abbrev pub IsFollowing : Form → Type 0
  IsFollowing f = f.canonical_touched ≡ false → f.canonical ≡ slugify lower f.name

  abbrev pub IsFine : Option Form → Type 0
  IsFine none = Unit
  IsFine (some f) = IsFollowing f

  new_form-IsFollowing : (mount : ℕ) (o : Option Provider) → IsFollowing (new_form mount o)
  unfolding new_form
  new_form-IsFollowing mount none e = sym blank_slug
  new_form-IsFollowing mount (some p) e = cc

  on_form-IsFine :
      (change : Form → Form) (o : Option Form)
      → ((f : Form) → IsFollowing f → IsFollowing (change f))
      → IsFine o
      → IsFine (on_form change o)
  unfolding on_form
  on_form-IsFine change none k h = tt
  on_form-IsFine change (some f) k h = k f h

  choose_preset-IsFollowing : (o : Option Preset) (f : Form) → IsFollowing (choose_preset lower o f)
  unfolding choose_preset
  choose_preset-IsFollowing none f e = sym blank_slug
  choose_preset-IsFollowing (some p) f e = refl

  followed : (b : Bool) (old new : Chars) → b ≡ false → (if b then old else new) ≡ new
  followed true old new e = cc
  followed false old new e = refl

  unload-IsFollowing : (mount : ℕ) (f : Form) → IsFollowing f → IsFollowing (unload mount f)
  unfolding unload
  unload-IsFollowing mount f h = either_form (f.mount == mount)
    where
      either_form : (b : Bool) → IsFollowing (if b then record f { loading = false } else f)
      either_form true = h
      either_form false = h

  submit-IsFine :
      (o : Option Form) (s : Admin) → IsFine o → IsFine s.form → IsFine (submit o s).form
  unfolding submit
  submit-IsFine none s h k = k
  submit-IsFine (some f) s h k = either_admin f.loading
    where
      either_admin :
          (b : Bool)
          → IsFine
              (if b then s else record s {
                form = some (record f { loading = true });
                calls = s.calls ++ call_of s.edit_provider f ∷ [];
                waiting = s.waiting ++ f.mount ∷ [];
              }).form
      either_admin true = k
      either_admin false = h

  submit_answered-IsFine :
      (good : Bool) (ms : List ℕ) (s : Admin)
      → IsFine s.form
      → IsFine (submit_answered good ms s).form
  unfolding submit_answered
  submit_answered-IsFine good [] s h = h
  submit_answered-IsFine true (m ∷ ms) s h = tt
  submit_answered-IsFine false (m ∷ ms) s h =
      on_form-IsFine (unload m) s.form (unload-IsFollowing m) h

  add_pressed-IsFine : (mount : ℕ) (o : Option Form) → IsFine (add_pressed mount o)
  unfolding add_pressed
  add_pressed-IsFine mount none = new_form-IsFollowing mount none
  add_pressed-IsFine mount (some f) = tt

  edit_pressed-IsFine :
      (mount : ℕ) (p : Provider) (o : Option Form) → IsFine o → IsFine (edit_pressed mount p o)
  unfolding edit_pressed
  edit_pressed-IsFine mount p none h = new_form-IsFollowing mount (some p)
  edit_pressed-IsFine mount p (some f) h = h

  preset-IsFine :
      (o : Option Provider) (key : String) (s : Admin)
      → IsFine s.form
      → IsFine
          (elim o as (λ _. Admin) [
            | none ↦ record s {
              form = on_form (choose_preset lower (preset_of key provider_presets)) s.form;
            }
            | some _ ↦ s
          ]).form
  preset-IsFine none key s h =
      on_form-IsFine _ s.form (λ f k. choose_preset-IsFollowing (preset_of key provider_presets) f)
        h
  preset-IsFine (some p) key s h = h

  deleted-form :
      (good : Bool) (ds : List (List Provider × Chars)) (s : Admin)
      → (deleted good ds s).form ≡ s.form
  unfolding deleted
  deleted-form good [] s = refl
  deleted-form good ((seen, c) ∷ ds) s = refl

  step-IsFine : (e : Event) (s : Admin) → IsFine s.form → IsFine (step lower e s).form
  unfolding step type_name type_canonical
  step-IsFine (loaded ps) s h = h
  step-IsFine new_pressed s h = add_pressed-IsFine s.mounts s.form
  step-IsFine (edited p) s h = edit_pressed-IsFine s.mounts p s.form h
  step-IsFine cancelled s h = tt
  step-IsFine (preset_chosen key) s h = preset-IsFine s.edit_provider key s h
  step-IsFine (name_typed name) s h =
      on_form-IsFine _ s.form
        (λ f k e. followed f.canonical_touched f.canonical (slugify lower name) e) h
  step-IsFine (canonical_typed c) s h = on_form-IsFine _ s.form (λ f k e. cc) h
  step-IsFine (settings_typed t) s h = on_form-IsFine _ s.form (λ f k. k) h
  step-IsFine (client_typed id secret) s h = on_form-IsFine _ s.form (λ f k. k) h
  step-IsFine (enabled_set b) s h = on_form-IsFine _ s.form (λ f k. k) h
  step-IsFine submitted s h = submit-IsFine s.form s h h
  step-IsFine (submit_done good) s h = submit_answered-IsFine good s.waiting s h
  step-IsFine (delete_pressed c) s h = h
  step-IsFine (delete_done good) s h = rw (deleted-form good s.deleting s) h

  run-IsFine : (events : List Event) (s : Admin) → IsFine s.form → IsFine (run lower events s).form
  unfolding run
  run-IsFine [] s h = h
  run-IsFine (e ∷ events) s h = run-IsFine events (step lower e s) (step-IsFine e s h)

  -- If the lower case of nothing is nothing, then whatever was done, a form that is not marked as
  -- touched has the slug of its name as the canonical name.
  pub form-IsFollowing :
      (ps : List Provider) (events : List Event) → IsFine (run lower events (opened ps)).form
  form-IsFollowing ps events = run-IsFine events (opened ps) tt
