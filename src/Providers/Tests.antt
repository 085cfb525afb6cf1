-- ===== src/Providers/Tests.antt =====
-- Runs of the page of the providers.
use pikoci.Base.{
  ℕ, ◌+◌, ◌≡◌, refl, ap, ◌∙◌, true, false, Bool, ◌&&◌, Option, some, [], ◌∷◌, map, if◌then◌else◌,
  leb, inl, inr, arith, text_equality, number_equality, none, List,
}
use pikoci.Text.{Chars, codes, same_chars, chars_equality}
use pikoci.Providers.Slug.{is_plain, dash_runs, strip_front, strip_back, slugify}
use pikoci.Providers.Slugs.{IsTidy, IsSlug, slugify-IsSlug}
use pikoci.Providers.Form.{
  Provider, blank, new_form, call_of, edit_pressed, submit, deleted, remove_provider, new_pressed,
  edited, preset_chosen, name_typed, submitted, delete_pressed, delete_done, step, run, opened,
  Form, Event, add_pressed, on_form, choose_preset, type_name, preset_of,
}
use pikoci.Providers.History.{canonical_follows}

-- `toLowerCase` on texts of ASCII.
unfoldable ascii_lower : ℕ → ℕ
ascii_lower c = if leb b'A' c && leb c b'Z' then c + 32 else c

abbrev lower : Chars → Chars
lower s = map ascii_lower s

slug : slugify lower (codes "  My GitHub (v2)! ") ≡ codes "my-github-v2"
unfolding slugify dash_runs strip_front strip_back is_plain ascii_lower
slug = refl

lower-plain : (c : ℕ) → is_plain c ≡ true → ascii_lower c ≡ c
unfolding is_plain ascii_lower
lower-plain c h = ground arith

lower_tidy : (held : Bool) (s : Chars) → IsTidy held s → lower s ≡ s
unfolding ascii_lower
lower_tidy held [] h = refl
lower_tidy held (c ∷ cs) (inl (p, h)) =
    ap (λ d. d ∷ lower cs) (lower-plain c p) ∙ ap (λ r. c ∷ r) (lower_tidy false cs h)
lower_tidy held (c ∷ cs) (inr (e, f, h)) = rw e (ap (λ r. b'-' ∷ r) (lower_tidy true cs h))

lower_slug : (s : Chars) → IsSlug s → lower s ≡ s
lower_slug [] h = refl
lower_slug (c ∷ cs) h = lower_tidy true (c ∷ cs) h

slugify-IsSlug_example :
    IsSlug (slugify lower (codes "Git-Hub"))
    × (IsSlug (codes "Git-Hub") → slugify lower (codes "Git-Hub") ≡ codes "Git-Hub")
slugify-IsSlug_example = slugify-IsSlug lower lower_slug (codes "Git-Hub")

abbrev named : Chars → Provider
named n = record { name = n; canonical = n; settings = blank; client_id = "id"; enabled = true }

-- Another provider is edited while the form is there, and gets the fields of the first.
wrong_update :
    map {B = Option Chars × Chars}
      (λ c. (c.updated, c.name))
      (run lower
        (edited (named (codes "a")) ∷ edited (named (codes "b")) ∷ submitted ∷ [])
        (opened [])).calls
    ≡ (some (codes "b"), codes "a") ∷ []
unfolding run step edit_pressed new_form submit call_of
wrong_update = refl

-- The second of two deletions brings the first provider back.
deleted_again :
    map
      (λ p. p.name)
      (run lower
        (delete_pressed (codes "a")
          ∷ delete_pressed (codes "b")
          ∷ delete_done true
          ∷ delete_done true
          ∷ [])
        (opened (named (codes "a") ∷ named (codes "b") ∷ []))).providers
    ≡ codes "a" ∷ []
unfolding run step deleted remove_provider same_chars
deleted_again = refl

abbrev typed : List Event
typed = new_pressed ∷ preset_chosen "github" ∷ name_typed (codes "Our Hub") ∷ []

abbrev form_or_blank : Option Form → Form
form_or_blank none = new_form 0 none
form_or_blank (some f) = f

abbrev hub : Form
hub = form_or_blank (run lower typed (opened [])).form

hub_canonical : hub.canonical ≡ codes "our-hub"
unfolding run step add_pressed new_form on_form choose_preset type_name preset_of slugify dash_runs
    strip_front strip_back is_plain ascii_lower
hub_canonical = refl

canonical_follows_example : hub.canonical ≡ slugify lower hub.name
unfolding run step add_pressed new_form on_form choose_preset type_name preset_of
canonical_follows_example = canonical_follows lower refl [] typed hub refl refl
