-- ===== src/Team/Chosen.antt =====
-- Which filters the user chose, and that a query asks for them.
use pikoci.Base.{
  ℕ, zero, suc, Bool, true, false, not, ◌&&◌, ◌||◌, none, some, List, [], ◌∷◌, ◌++◌, String, any,
  map, take, ◌≡◌, refl, ap, ◌∙◌, if◌then◌else◌, ◌==◌, text_equality, contains, Option,
}
use pikoci.Team.Audit.{
  Filter, Query, Request, replacing, appending, Page, is_idle, Kind, user, action, pipeline, Log,
  add_filter, remove_filter, toggle_filter, on_list, search_params, load_entries, load_more,
  ask_more, answer, oldest, Event, added, removed, toggled, since_typed, until_typed, applied,
  pressed_more, answered, failed, step, run, opened,
}
use pikoci.Team.Parameters.{filters_in}
use pikoci.Team.Filters.{search_params-filters}

-- What each button does to the filters of its list: a value is put behind the others, kept, unless
-- it is there; the filter at a place is taken out, or is turned round.
abbrev pub with_value : String → List Filter → List Filter
with_value value fs =
    if value == "" || contains (map (λ f. f.value) fs) value
    then fs
    else fs ++ (record { value = value; exclude = false }) ∷ []

abbrev behind : ℕ → List Filter → List Filter
behind zero fs = fs
behind (suc n) [] = []
behind (suc n) (f ∷ fs) = behind n fs

abbrev pub without_place : ℕ → List Filter → List Filter
without_place i fs = take i fs ++ behind (suc i) fs

abbrev turned : Filter → Filter
turned f = record { value = f.value; exclude = if f.exclude then false else true }

abbrev pub turned_place : ℕ → List Filter → List Filter
turned_place i fs = take i fs ++ (map turned (take 1 (behind i fs)) ++ behind (suc i) fs)

abbrev is_kind : Kind → Kind → Bool
is_kind user user = true
is_kind action action = true
is_kind pipeline pipeline = true
is_kind _ _ = false

-- The filters of one list after the events, from those before; pipelines are not turned round.
abbrev pub chosen : Kind → List Event → List Filter → List Filter
chosen kind [] fs = fs
chosen kind (added k value ∷ es) fs =
    chosen kind es (if is_kind k kind then with_value value fs else fs)
chosen kind (removed k i ∷ es) fs =
    chosen kind es (if is_kind k kind then without_place i fs else fs)
chosen kind (toggled k i ∷ es) fs =
    chosen kind es (if is_kind k kind && not (is_kind k pipeline) then turned_place i fs else fs)
chosen kind (_ ∷ es) fs = chosen kind es fs

abbrev list_of : Kind → Log → List Filter
list_of user s = s.users
list_of action s = s.actions
list_of pipeline s = s.pipelines

any_value :
    (value : String) (fs : List Filter)
    → any (λ i. i.value == value) fs ≡ contains (map (λ f. f.value) fs) value
unfolding contains
any_value value [] = refl
any_value value (f ∷ fs) = ap (λ b. f.value == value || b) (any_value value fs)

not_if : (b : Bool) → not b ≡ (if b then false else true)
not_if true = refl
not_if false = refl

add_filter-with_value :
    (value : String) (fs : List Filter) → add_filter value fs ≡ with_value value fs
unfolding add_filter
add_filter-with_value value fs = rw (any_value value fs) refl

remove_filter-without_place : (i : ℕ) (fs : List Filter) → remove_filter i fs ≡ without_place i fs
unfolding remove_filter
remove_filter-without_place zero [] = refl
remove_filter-without_place (suc i) [] = refl
remove_filter-without_place zero (f ∷ fs) = refl
remove_filter-without_place (suc i) (f ∷ fs) = ap (λ r. f ∷ r) (remove_filter-without_place i fs)

exclude_flip : (f : Filter) → record f { exclude = not f.exclude } ≡ turned f
exclude_flip f = ap (λ b. record f { exclude = b }) (not_if f.exclude)

toggle_filter-turned_place : (i : ℕ) (fs : List Filter) → toggle_filter i fs ≡ turned_place i fs
unfolding toggle_filter
toggle_filter-turned_place zero [] = refl
toggle_filter-turned_place (suc i) [] = refl
toggle_filter-turned_place zero (f ∷ fs) = ap (λ g. g ∷ fs) (exclude_flip f)
toggle_filter-turned_place (suc i) (f ∷ fs) = ap (λ r. f ∷ r) (toggle_filter-turned_place i fs)

on_list-list_of :
    (kind k : Kind) (f g : List Filter → List Filter) (s : Log)
    → ((fs : List Filter) → f fs ≡ g fs)
    → list_of kind (on_list k f s) ≡ (if is_kind k kind then g (list_of kind s) else list_of kind s)
unfolding on_list
on_list-list_of user user f g s h = h s.users
on_list-list_of user action f g s h = refl
on_list-list_of user pipeline f g s h = refl
on_list-list_of action user f g s h = refl
on_list-list_of action action f g s h = h s.actions
on_list-list_of action pipeline f g s h = refl
on_list-list_of pipeline user f g s h = refl
on_list-list_of pipeline action f g s h = refl
on_list-list_of pipeline pipeline f g s h = h s.pipelines

-- What leaves all three lists alone.
record SameLists (s t : Log) : Type 0 where
  users_same : t.users ≡ s.users
  actions_same : t.actions ≡ s.actions
  pipelines_same : t.pipelines ≡ s.pipelines

same : (s : Log) → SameLists s s
same s = record { users_same = refl; actions_same = refl; pipelines_same = refl }

same_list : (kind : Kind) (s t : Log) → SameLists s t → list_of kind t ≡ list_of kind s
same_list user s t h = h.users_same
same_list action s t h = h.actions_same
same_list pipeline s t h = h.pipelines_same

either_same : (b : Bool) (s t : Log) → SameLists s t → SameLists s (if b then t else s)
either_same true s t h = h
either_same false s t h = same s

answer-same : (p : Page) (o : Option Request) (s : Log) → SameLists s (answer p o s)
unfolding answer
answer-same p none s = same s
answer-same p (some (replacing q)) s = record {
  users_same = refl;
  actions_same = refl;
  pipelines_same = refl;
}
answer-same p (some (appending q)) s = record {
  users_same = refl;
  actions_same = refl;
  pipelines_same = refl;
}

ask_more-same : (iso : String → String) (o : Option ℕ) (s : Log) → SameLists s (ask_more iso o s)
unfolding ask_more
ask_more-same iso none s = same s
ask_more-same iso (some id) s = record {
  users_same = refl;
  actions_same = refl;
  pipelines_same = refl;
}

load_entries-same : (iso : String → String) (s : Log) → SameLists s (load_entries iso s)
unfolding load_entries
load_entries-same iso s = record { users_same = refl; actions_same = refl; pipelines_same = refl }

load_more-same : (iso : String → String) (s : Log) → SameLists s (load_more iso s)
unfolding load_more
load_more-same iso s = ask_more-same iso (oldest s.entries) s

kind_and {ℓ} :
    {A : Type ℓ} (b : Bool) (x y : A) → (if b then x else y) ≡ (if b && true then x else y)
kind_and true x y = refl
kind_and false x y = refl

kind_never {ℓ} : {A : Type ℓ} (b : Bool) (x y : A) → y ≡ (if b && false then x else y)
kind_never true x y = refl
kind_never false x y = refl

step-chosen :
    (iso : String → String) (kind : Kind) (e : Event) (s : Log)
    → list_of kind (step iso e s) ≡ chosen kind (e ∷ []) (list_of kind s)
unfolding step
step-chosen iso kind (added k value) s =
    on_list-list_of kind k (add_filter value) (with_value value) s (add_filter-with_value value)
step-chosen iso kind (removed k i) s =
    on_list-list_of kind k (remove_filter i) (without_place i) s (remove_filter-without_place i)
step-chosen iso kind (toggled user i) s =
    on_list-list_of kind user (toggle_filter i) (turned_place i) s (toggle_filter-turned_place i)
    ∙ kind_and (is_kind user kind) _ _
step-chosen iso kind (toggled action i) s =
    on_list-list_of kind action (toggle_filter i) (turned_place i) s (toggle_filter-turned_place i)
    ∙ kind_and (is_kind action kind) _ _
step-chosen iso kind (toggled pipeline i) s = kind_never (is_kind pipeline kind) _ _
step-chosen iso kind (since_typed time) s =
    same_list kind s _ (record { users_same = refl; actions_same = refl; pipelines_same = refl })
step-chosen iso kind (until_typed time) s =
    same_list kind s _ (record { users_same = refl; actions_same = refl; pipelines_same = refl })
step-chosen iso kind applied s =
    same_list kind s _ (either_same (is_idle s.waiting) s _ (load_entries-same iso s))
step-chosen iso kind pressed_more s =
    same_list kind s _ (either_same (is_idle s.waiting && s.has_more) s _ (load_more-same iso s))
step-chosen iso kind (answered p) s = same_list kind s _ (answer-same p s.waiting s)
step-chosen iso kind failed s =
    same_list kind s _ (record { users_same = refl; actions_same = refl; pipelines_same = refl })

one_by_one :
    (kind : Kind) (e : Event) (es : List Event) (fs : List Filter)
    → chosen kind es (chosen kind (e ∷ []) fs) ≡ chosen kind (e ∷ es) fs
one_by_one kind (added k value) es fs = refl
one_by_one kind (removed k i) es fs = refl
one_by_one kind (toggled k i) es fs = refl
one_by_one kind (since_typed time) es fs = refl
one_by_one kind (until_typed time) es fs = refl
one_by_one kind applied es fs = refl
one_by_one kind pressed_more es fs = refl
one_by_one kind (answered p) es fs = refl
one_by_one kind failed es fs = refl

run-chosen :
    (iso : String → String) (kind : Kind) (es : List Event) (s : Log)
    → list_of kind (run iso es s) ≡ chosen kind es (list_of kind s)
unfolding run
run-chosen iso kind [] s = refl
run-chosen iso kind (e ∷ es) s =
    run-chosen iso kind es (step iso e s)
    ∙ (ap (chosen kind es) (step-chosen iso kind e s) ∙ one_by_one kind e es (list_of kind s))

-- The parameters stand for the filters that the events chose.
abbrev pub Asks : List Event → Query → Type 0
Asks events q =
    (filters_in "user" "exclude_user" q.params ≡ chosen user events [])
    × (filters_in "action" "exclude_action" q.params ≡ chosen action events [])
    × (filters_in "pipeline" "" q.params ≡ chosen pipeline events [])

-- Whatever the user did, the parameters of a query stand, for users, actions and pipelines each,
-- for exactly the filters that the presses on this list made of no filters: a value put behind the
-- others unless it is empty or there, the filter at a place taken out, or turned between kept and
-- left out, which pipelines are not.
pub search_params_chosen :
    (iso : String → String) (events : List Event) (before : Option ℕ)
    → Asks events (search_params iso (run iso events (opened iso)) before)
unfolding opened load_entries
search_params_chosen iso events before =
    let (u, a, p) = search_params-filters iso events before in
    (
      u ∙ run-chosen iso user events (opened iso),
      a ∙ run-chosen iso action events (opened iso),
      p ∙ run-chosen iso pipeline events (opened iso),
    )
