-- ===== src/Providers/Form.antt =====
-- OAuthAdmin and its ProviderForm (components/OAuthAdmin.js). What the user does, and the answers of
-- the server, are events. The browser's own checks of the fields are left out.
use pikoci.Base.{
  ℕ, suc, Bool, true, false, not, Option, none, some, List, [], ◌∷◌, ◌++◌, String, filter,
  if◌then◌else◌, ◌==◌, text_equality, number_equality,
}
use pikoci.Text.{Chars, codes, chars_equality}
use pikoci.Providers.Slug.{slugify}

-- The fields that are filled in by hand or by a preset.
pub record Settings : Type 0 where
  pub kind : String  -- `type`
  pub issuer_url : String
  pub auth_url : String
  pub token_url : String
  pub userinfo_url : String
  pub scopes : String
  pub username_claim : String

pub record Provider : Type 0 where
  pub name : Chars
  pub canonical : Chars
  pub settings : Settings
  pub client_id : String
  pub enabled : Bool

pub record Form : Type 0 where
  pub name : Chars
  pub canonical : Chars
  pub canonical_touched : Bool
  pub settings : Settings
  pub client_id : String
  pub client_secret : String
  pub enabled : Bool
  pub loading : Bool
  pub mount : ℕ  -- which of the forms that were mounted it is

pub record Preset : Type 0 where
  pub label : Chars
  pub settings : Settings

abbrev pub blank : Settings
blank = record {
  kind = "oidc";
  issuer_url = "";
  auth_url = "";
  token_url = "";
  userinfo_url = "";
  scopes = "";
  username_claim = "";
}

-- A preset of OpenID Connect: its issuer, scopes and claim.
abbrev pub oidc : String → String → Settings
oidc issuer claim = record blank {
  issuer_url = issuer;
  scopes = "openid email profile";
  username_claim = claim;
}

-- `PROVIDER_PRESETS`
abbrev pub provider_presets : List (String × Preset)
provider_presets =
    (
      "github",
      record {
        label = codes "GitHub";
        settings = record {
          kind = "oauth2";
          issuer_url = "";
          auth_url = "https://github.com/login/oauth/authorize";
          token_url = "https://github.com/login/oauth/access_token";
          userinfo_url = "https://api.github.com/user";
          scopes = "user:email";
          username_claim = "login";
        };
      },
    )
    ∷ (
      "google",
      record { label = codes "Google"; settings = oidc "https://accounts.google.com" "email" },
    )
    ∷ (
      "gitlab",
      record { label = codes "GitLab"; settings = oidc "https://gitlab.com" "preferred_username" },
    )
    ∷ ("microsoft", record { label = codes "Microsoft"; settings = oidc "" "email" })
    ∷ (
      "bitbucket",
      record {
        label = codes "Bitbucket";
        settings = record {
          kind = "oauth2";
          issuer_url = "";
          auth_url = "https://bitbucket.org/site/oauth2/authorize";
          token_url = "https://bitbucket.org/site/oauth2/access_token";
          userinfo_url = "https://api.bitbucket.org/2.0/user";
          scopes = "account email";
          username_claim = "username";
        };
      },
    )
    ∷ ("keycloak", record { label = codes "Keycloak"; settings = oidc "" "preferred_username" })
    ∷ []

unfoldable pub preset_of : String → List (String × Preset) → Option Preset
preset_of key [] = none
preset_of key ((k, p) ∷ presets) = if k == key then some p else preset_of key presets

-- The state of the form when it is mounted.
unfoldable pub new_form : ℕ → Option Provider → Form
new_form mount none = record {
  name = [];
  canonical = [];
  canonical_touched = false;
  settings = blank;
  client_id = "";
  client_secret = "";
  enabled = true;
  loading = false;
  mount = mount;
}
new_form mount (some p) = record {
  name = p.name;
  canonical = p.canonical;
  canonical_touched = true;
  settings = p.settings;
  client_id = p.client_id;
  client_secret = "";
  enabled = p.enabled;
  loading = false;
  mount = mount;
}

-- `onPresetChange`
unfoldable pub choose_preset : (Chars → Chars) → Option Preset → Form → Form
choose_preset lower none f = record f {
  name = [];
  canonical = [];
  canonical_touched = false;
  settings = blank;
}
choose_preset lower (some p) f = record f {
  name = p.label;
  canonical = slugify lower p.label;
  canonical_touched = false;
  settings = p.settings;
}

-- The handlers of the two texts.
unfoldable pub type_name : (Chars → Chars) → Chars → Form → Form
type_name lower name f = record f {
  name = name;
  canonical = if f.canonical_touched then f.canonical else slugify lower name;
}

unfoldable pub type_canonical : Chars → Form → Form
type_canonical canonical f = record f { canonical = canonical; canonical_touched = true }

-- `data` of `onSubmit`, and the provider that is updated with it, by its canonical name.
pub record Call : Type 0 where
  pub updated : Option Chars
  pub name : Chars
  pub canonical : Chars
  pub settings : Settings
  pub client_id : String
  pub client_secret : String
  pub enabled : Bool

unfoldable pub call_of : Option Provider → Form → Call
call_of edited f = record {
  updated = elim edited [ none ↦ none | some p ↦ some p.canonical ];
  name = f.name;
  canonical = f.canonical;
  settings = f.settings;
  client_id = f.client_id;
  client_secret = f.client_secret;
  enabled = f.enabled;
}

pub record Admin : Type 0 where
  pub providers : List Provider
  pub edit_provider : Option Provider
  pub form : Option Form  -- mounted while `showForm`
  pub mounts : ℕ  -- how many forms were mounted
  pub calls : List Call
  pub waiting : List ℕ  -- the calls that wait, by the form that made them
  pub deleting : List (List Provider × Chars)  -- the calls of `onDelete` that wait, with their list

unfoldable pub remove_provider : Chars → List Provider → List Provider
remove_provider canonical ps = filter (λ p. not (p.canonical == canonical)) ps

unfoldable pub on_form : (Form → Form) → Option Form → Option Form
on_form change none = none
on_form change (some f) = some (change f)

-- The button for a new provider shows the form, or hides it.
unfoldable pub add_pressed : ℕ → Option Form → Option Form
add_pressed mount none = some (new_form mount none)
add_pressed mount (some f) = none

-- `onEdit`; a form that is there stays mounted, and keeps its state.
unfoldable pub edit_pressed : ℕ → Provider → Option Form → Option Form
edit_pressed mount p none = some (new_form mount (some p))
edit_pressed mount p (some f) = some f

-- `onSubmit`, up to its `await`; the button is disabled while the form loads.
unfoldable pub submit : Option Form → Admin → Admin
submit none s = s
submit (some f) s = if f.loading then s else record s {
  form = some (record f { loading = true });
  calls = s.calls ++ call_of s.edit_provider f ∷ [];
  waiting = s.waiting ++ f.mount ∷ [];
}

unfoldable pub unload : ℕ → Form → Form
unload mount f = if f.mount == mount then record f { loading = false } else f

-- The rest of it, and `onFormDone`, which closes the form that is there.
unfoldable pub submit_answered : Bool → List ℕ → Admin → Admin
submit_answered good [] s = s
submit_answered good (mount ∷ rest) s =
    if good
    then record s { waiting = rest; form = none; edit_provider = none }
    else record s { waiting = rest; form = on_form (unload mount) s.form }

unfoldable pub deleted : Bool → List (List Provider × Chars) → Admin → Admin
deleted good [] s = s
deleted good ((seen, canonical) ∷ rest) s = record s {
  deleting = rest;
  providers = if good then remove_provider canonical seen else s.providers;
}

pub data Event : Type 0 where
  loaded : List Provider → Event
  new_pressed : Event
  edited : Provider → Event
  cancelled : Event
  preset_chosen : String → Event
  name_typed : Chars → Event
  canonical_typed : Chars → Event
  settings_typed : Settings → Event
  client_typed : String → String → Event
  enabled_set : Bool → Event
  submitted : Event
  submit_done : Bool → Event
  delete_pressed : Chars → Event
  delete_done : Bool → Event

-- The templates are there for a new provider only.
unfoldable pub step : (Chars → Chars) → Event → Admin → Admin
step lower (loaded ps) s = record s { providers = ps }
step lower new_pressed s = record s {
  edit_provider = none;
  form = add_pressed s.mounts s.form;
  mounts = suc s.mounts;
}
step lower (edited p) s = record s {
  edit_provider = some p;
  form = edit_pressed s.mounts p s.form;
  mounts = suc s.mounts;
}
step lower cancelled s = record s { edit_provider = none; form = none }
step lower (preset_chosen key) s = elim s.edit_provider [
  | none ↦ record s { form = on_form (choose_preset lower (preset_of key provider_presets)) s.form }
  | some _ ↦ s
]
step lower (name_typed name) s = record s { form = on_form (type_name lower name) s.form }
step lower (canonical_typed c) s = record s { form = on_form (type_canonical c) s.form }
step lower (settings_typed t) s = record s {
  form = on_form (λ f. record f { settings = t }) s.form;
}
step lower (client_typed id secret) s = record s {
  form = on_form (λ f. record f { client_id = id; client_secret = secret }) s.form;
}
step lower (enabled_set b) s = record s { form = on_form (λ f. record f { enabled = b }) s.form }
step lower submitted s = submit s.form s
step lower (submit_done good) s = submit_answered good s.waiting s
step lower (delete_pressed c) s = record s { deleting = s.deleting ++ (s.providers, c) ∷ [] }
step lower (delete_done good) s = deleted good s.deleting s

unfoldable pub run : (Chars → Chars) → List Event → Admin → Admin
run lower [] s = s
run lower (e ∷ events) s = run lower events (step lower e s)

abbrev pub opened : List Provider → Admin
opened ps = record {
  providers = ps;
  edit_provider = none;
  form = none;
  mounts = 0;
  calls = [];
  waiting = [];
  deleting = [];
}
