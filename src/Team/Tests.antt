-- ===== src/Team/Tests.antt =====
-- Runs of the members and of the audit log of a team.
use mathlib.Core.Path.{subst}
use mathlib.Core.List.{head-eq_of_cons-eq, tail-eq_of_cons-eq}
use pikoci.Base.{
  ℕ, ◌≡◌, sym, ap, true, false, none, some, Option, String, ◌==◌, number_equality, if◌then◌else◌,
  length-append, refl, arith, List, [], ◌∷◌, ◌++◌, length, text_equality, contains,
}
use pikoci.Team.Members.{
  Member, is_admin, admins, is_last_admin, change, without, apply, is_removing, row_of, is_free,
  take_request, answer, chose_role, deleted, answered, step, run, opened, new_users,
}
use pikoci.Team.Audit
use pikoci.Team.Audit.{
  Entry, Query, Page, user, action, pipeline, Log, add_filter, toggle_filter, on_list,
  filter_params, time_param, search_params, load_entries, load_more, ask_more, is_idle, oldest,
  added, removed, toggled, pressed_more, appending,
}
use pikoci.Team.Chosen.{chosen, Asks, search_params_chosen}
use pikoci.Team.Pages.{IsPage, IsPaging, read, read-entries}
use pikoci.Team.Admins.{IsLed, run-IsLed}

abbrev ann : Member
ann = record { username = "ann"; role = "admin" }

abbrev bob : Member
bob = record { username = "bob"; role = "admin" }

abbrev eve : Member
eve = record { username = "eve"; role = "read" }

-- Both are administrators when both are asked for.
both_lowered :
    admins
      (run
        (chose_role "ann" "read" ∷ deleted "bob" ∷ answered 0 true ∷ answered 0 true ∷ [])
        (opened true (ann ∷ bob ∷ eve ∷ []))).members
    ≡ 0
unfolding run step row_of is_free is_last_admin admins is_admin is_removing answer take_request
    apply change without
both_lowered = refl

-- The list that the change of a role kept has the member that was deleted meanwhile.
deleted_again :
    (run
      (chose_role "eve" "write" ∷ deleted "bob" ∷ answered 1 true ∷ answered 0 true ∷ [])
      (opened true (ann ∷ bob ∷ eve ∷ []))).members
    ≡ ann ∷ bob ∷ (record { username = "eve"; role = "write" }) ∷ []
unfolding run step row_of is_free is_last_admin admins is_admin is_removing answer take_request
    apply change without
deleted_again = refl

offered : new_users (ann ∷ bob ∷ []) ("ann" ∷ "dan" ∷ "bob" ∷ []) ≡ "dan" ∷ []
unfolding new_users contains
offered = refl

run-IsLed_example :
    IsLed
      (run
        (deleted "bob" ∷ answered 0 true ∷ deleted "ann" ∷ [])
        (opened true (ann ∷ bob ∷ eve ∷ []))).members
unfolding run step row_of is_free is_last_admin admins is_admin is_removing answer take_request
    apply change without contains
run-IsLed_example =
    run-IsLed true (ann ∷ bob ∷ eve ∷ []) (deleted "bob" ∷ answered 0 true ∷ deleted "ann" ∷ [])
      ((refl, (refl, (refl, tt))), omega arith) (refl, (tt, (refl, tt)))

abbrev iso : String → String
iso time = time

-- Ann's builds, and all that Bob did not do.
abbrev presses : List Audit.Event
presses =
    added user "ann"
    ∷ added action "job.triggered"
    ∷ added action "job.paused"
    ∷ toggled action 1
    ∷ removed action 0
    ∷ added pipeline "web"
    ∷ []

chosen_actions : chosen action presses [] ≡ (record { value = "job.paused"; exclude = true }) ∷ []
unfolding contains
chosen_actions = refl

search_params_chosen_example :
    Asks presses (search_params iso (Audit.run iso presses (Audit.opened iso)) none)
search_params_chosen_example = search_params_chosen iso presses none

abbrev old : Entry
old = record { id = 1; actor = "ann"; action = "job.paused" }

abbrev new : Entry
new = record { id = 2; actor = "bob"; action = "job.paused" }

abbrev two_pages : Option ℕ → Page
two_pages none = record { data_entries = new ∷ []; more = true }
two_pages (some id) =
    if id == 2
    then record { data_entries = old ∷ []; more = false }
    else record { data_entries = []; more = false }

abbrev server : Query → Page
server q = two_pages q.before

behind_first :
    (x : Entry) (rest : List Entry)
    → x ≡ new
    → rest ≡ old ∷ []
    → IsPage (two_pages (some x.id)) rest
behind_first x rest e k =
    subst (λ y. IsPage (two_pages (some y.id)) rest) (sym e)
      (subst (IsPage (two_pages (some 2))) (sym k) (([], refl, λ h. refl), λ h. cc))

behind_last :
    (x : Entry) (rest : List Entry) → x ≡ old → rest ≡ [] → IsPage (two_pages (some x.id)) rest
behind_last x rest e k =
    subst (λ y. IsPage (two_pages (some y.id)) rest) (sym e)
      (subst (IsPage (two_pages (some 1))) (sym k) (([], refl, λ h. refl), λ h. cc))

server-IsPaging : (params : List (String × String)) → IsPaging server params (new ∷ old ∷ [])
server-IsPaging params = record {
  first = ((old ∷ [], refl, λ h. cc), λ h. omega arith);
  next = behind;
}
  where
    behind :
        (xs : List Entry) (x : Entry) (rest : List Entry)
        → xs ++ x ∷ rest ≡ new ∷ old ∷ []
        → IsPage (two_pages (some x.id)) rest
    behind [] x rest h = behind_first x rest (head-eq_of_cons-eq h) (tail-eq_of_cons-eq h)
    behind (y ∷ []) x rest h =
        behind_last x rest (head-eq_of_cons-eq (tail-eq_of_cons-eq h))
          (tail-eq_of_cons-eq (tail-eq_of_cons-eq h))
    behind (y ∷ z ∷ xs) x rest h = absurd (omega (arith, ap length h, length-append xs (x ∷ rest)))

abbrev idle : Log
idle = record {
  entries = [];
  has_more = false;
  users = [];
  actions = [];
  pipelines = [];
  since = "";
  until = "";
  waiting = none;
}

read-entries_example : (read iso server 2 idle).entries ≡ new ∷ old ∷ []
unfolding is_idle
read-entries_example =
    read-entries iso server idle (new ∷ old ∷ []) refl (server-IsPaging _) 2 (omega arith)

-- A filter that was not applied counts for the next page.
next_page :
    (Audit.run iso
      (added user "bob" ∷ pressed_more ∷ [])
      (record idle { entries = new ∷ []; has_more = true })).waiting
    ≡ some (appending (record { params = ("user", "bob") ∷ []; before = some 2 }))
unfolding Audit.run Audit.step is_idle on_list add_filter load_more ask_more oldest search_params
    filter_params time_param
next_page = refl
