-- ===== src/Team/Filters.antt =====
-- The parameters say which filters the three lists hold.
use mathlib.Core.List.{append-nil}
use pikoci.Base.{
  ℕ, zero, suc, Bool, true, false, ◌&&◌, ◌||◌, none, some, List, [], ◌∷◌, ◌++◌, String, any, ◌≡◌,
  refl, ◌∙◌, if◌then◌else◌, ◌==◌, text_equality, Bool-cases, Option, inl, inr, All, All-append,
}
use pikoci.Team.Audit.{
  Filter, Query, Request, replacing, appending, Page, is_idle, Kind, user, action, pipeline, Log,
  add_filter, remove_filter, on_list, filter_params, time_param, search_params, load_entries,
  load_more, ask_more, answer, oldest, Event, added, removed, toggled, since_typed, until_typed,
  applied, pressed_more, answered, failed, step, run, opened,
}
use pikoci.Team.Parameters.{
  filters_in, IsForeign, IsKept, own_filters, foreign_filters, foreign_time, kept_filters, in_parts,
}

-- The parameters stand for the filters of the three lists.
abbrev pub IsAsked : Log → Query → Type 0
IsAsked s q =
    (filters_in "user" "exclude_user" q.params ≡ s.users)
    × (filters_in "action" "exclude_action" q.params ≡ s.actions)
    × (filters_in "pipeline" "" q.params ≡ s.pipelines)

times_empty :
    (name excluded : String) (iso : String → String) (since until : String)
    → IsForeign name excluded "since"
    → IsForeign name excluded "until"
    → filters_in name excluded (time_param iso "since" since)
        ++ filters_in name excluded (time_param iso "until" until)
      ≡ []
times_empty name excluded iso since until h k =
    rw
      (
        foreign_time name excluded iso "since" since h,
        foreign_time name excluded iso "until" until k,
      )
      refl

search_params-parts :
    (name excluded : String) (iso : String → String) (s : Log) (before : Option ℕ)
    → filters_in name excluded (search_params iso s before).params
      ≡ filters_in name excluded (filter_params "user" "exclude_user" s.users)
        ++ (filters_in name excluded (filter_params "action" "exclude_action" s.actions)
            ++ (filters_in name excluded (filter_params "pipeline" "pipeline" s.pipelines)
                ++ (filters_in name excluded (time_param iso "since" s.since)
                    ++ filters_in name excluded (time_param iso "until" s.until))))
unfolding search_params
search_params-parts name excluded iso s before =
    in_parts name excluded (filter_params "user" "exclude_user" s.users)
      (filter_params "action" "exclude_action" s.actions)
      (filter_params "pipeline" "pipeline" s.pipelines) (time_param iso "since" s.since)
      (time_param iso "until" s.until)

search_params-IsAsked :
    (iso : String → String) (s : Log) (before : Option ℕ)
    → All IsKept s.pipelines
    → IsAsked s (search_params iso s before)
search_params-IsAsked iso s before h = (
  search_params-parts "user" "exclude_user" iso s before
      ∙ rw
          (
            own_filters "user" "exclude_user" s.users refl,
            foreign_filters "user" "exclude_user" "action" "exclude_action" s.actions (refl, refl)
                (refl, refl),
            foreign_filters "user" "exclude_user" "pipeline" "pipeline" s.pipelines (refl, refl)
                (refl, refl),
            times_empty "user" "exclude_user" iso s.since s.until (refl, refl) (refl, refl),
          )
          (append-nil s.users),
  search_params-parts "action" "exclude_action" iso s before
      ∙ rw
          (
            own_filters "action" "exclude_action" s.actions refl,
            foreign_filters "action" "exclude_action" "user" "exclude_user" s.users (refl, refl)
                (refl, refl),
            foreign_filters "action" "exclude_action" "pipeline" "pipeline" s.pipelines (refl, refl)
                (refl, refl),
            times_empty "action" "exclude_action" iso s.since s.until (refl, refl) (refl, refl),
          )
          (append-nil s.actions),
  search_params-parts "pipeline" "" iso s before
      ∙ rw
          (
            kept_filters s.pipelines h,
            foreign_filters "pipeline" "" "user" "exclude_user" s.users (refl, refl) (refl, refl),
            foreign_filters "pipeline" "" "action" "exclude_action" s.actions (refl, refl)
                (refl, refl),
            times_empty "pipeline" "" iso s.since s.until (refl, refl) (refl, refl),
          )
          (append-nil s.pipelines),
)

add_filter-IsKept :
    (value : String) (fs : List Filter) → All IsKept fs → All IsKept (add_filter value fs)
unfolding add_filter
add_filter-IsKept value fs h = elim (Bool-cases (value == "" || any (λ i. i.value == value) fs)) [
  | inl e ↦ rw e h
  | inr e ↦ rw e (All-append IsKept fs _ h (refl, tt))
]

remove_filter-IsKept : (i : ℕ) (fs : List Filter) → All IsKept fs → All IsKept (remove_filter i fs)
unfolding remove_filter
remove_filter-IsKept i [] h = h
remove_filter-IsKept zero (f ∷ fs) h = h.1
remove_filter-IsKept (suc i) (f ∷ fs) h = (h.0, remove_filter-IsKept i fs h.1)

IsPlain : Log → Type 0
IsPlain s = All IsKept s.pipelines

either_log : (b : Bool) (s t : Log) → IsPlain s → IsPlain t → IsPlain (if b then s else t)
either_log true s t h k = h
either_log false s t h k = k

answer-IsPlain : (p : Page) (o : Option Request) (s : Log) → IsPlain s → IsPlain (answer p o s)
unfolding answer IsPlain
answer-IsPlain p none s h = h
answer-IsPlain p (some (replacing q)) s h = h
answer-IsPlain p (some (appending q)) s h = h

on_list-IsPlain :
    (kind : Kind) (change : List Filter → List Filter) (s : Log)
    → ((fs : List Filter) → All IsKept fs → All IsKept (change fs))
    → IsPlain s
    → IsPlain (on_list kind change s)
unfolding on_list IsPlain
on_list-IsPlain user change s k h = h
on_list-IsPlain action change s k h = h
on_list-IsPlain pipeline change s k h = k s.pipelines h

ask_more-IsPlain :
    (iso : String → String) (o : Option ℕ) (s : Log) → IsPlain s → IsPlain (ask_more iso o s)
unfolding ask_more IsPlain
ask_more-IsPlain iso none s h = h
ask_more-IsPlain iso (some id) s h = h

step-IsPlain : (iso : String → String) (e : Event) (s : Log) → IsPlain s → IsPlain (step iso e s)
unfolding step on_list load_entries load_more IsPlain
step-IsPlain iso (added kind value) s h =
    on_list-IsPlain kind (add_filter value) s (add_filter-IsKept value) h
step-IsPlain iso (removed kind i) s h =
    on_list-IsPlain kind (remove_filter i) s (remove_filter-IsKept i) h
step-IsPlain iso (toggled user i) s h = h
step-IsPlain iso (toggled action i) s h = h
step-IsPlain iso (toggled pipeline i) s h = h
step-IsPlain iso (since_typed time) s h = h
step-IsPlain iso (until_typed time) s h = h
step-IsPlain iso applied s h = either_log (is_idle s.waiting) _ s h h
step-IsPlain iso pressed_more s h =
    either_log (is_idle s.waiting && s.has_more) (load_more iso s) s
      (ask_more-IsPlain iso (oldest s.entries) s h) h
step-IsPlain iso (answered p) s h = answer-IsPlain p s.waiting s h
step-IsPlain iso failed s h = h

run-IsPlain :
    (iso : String → String) (events : List Event) (s : Log) → IsPlain s → IsPlain (run iso events s)
unfolding run
run-IsPlain iso [] s h = h
run-IsPlain iso (e ∷ events) s h = run-IsPlain iso events (step iso e s) (step-IsPlain iso e s h)

-- Whatever the user did, the parameters of a query stand for exactly the filters of the three lists,
-- in their order, kept or left out as they say.
pub search_params-filters :
    (iso : String → String) (events : List Event) (before : Option ℕ)
    → IsAsked (run iso events (opened iso)) (search_params iso (run iso events (opened iso)) before)
unfolding opened load_entries IsPlain
search_params-filters iso events before =
    search_params-IsAsked iso (run iso events (opened iso)) before
      (run-IsPlain iso events (opened iso) tt)
