-- ===== src/ListView/Consistent.antt =====
-- What holds of the list view after any actions (components/PipelineListView.js).
use pikoci.Base.{
  String, true, not, ◌&&◌, ◌||◌, ◌≡◌, refl, inl, inr, Option, none, some, List, [], ◌∷◌, All,
  contains, text_equality, ◌==◌, ==_refl, Bool-cases, Option-cases, arith, length, number_equality,
  Bool, false, if◌then◌else◌,
}
use pikoci.Chain.{find_trigger_resources}
use pikoci.ListView.Handlers.{
  PathData, Saved, ListView, Props, first_of, first_resource, new_view, select_job, select_picked,
  auto_select, settle, pick_job, chain_of, has_job, is_empty, jobs_answered, path_names,
  select_first, select_again, is_selected, reselect, apply_scope, clear_scope, select_resource,
  select_version, toggle_parallel, rendered, Action, answered_jobs, answered_versions,
  answered_path, scope_cleared, chose_job, chose_resource, chose_version, toggled_resource_menu,
  toggled_version_menu, clicked_outside, toggled_parallel, drew, act, act_all,
}

-- A version is in scope with its jobs and its builds, or with neither.
abbrev pub IsPaired : Option (List String) → Option (List (String × String)) → Type 0
IsPaired none none = Unit
IsPaired none (some b) = ⊥
IsPaired (some c) none = ⊥
IsPaired (some c) (some b) = Unit

-- The job that is selected is the one that is saved.
abbrev pub IsSaved : Option String → Option String → Type 0
IsSaved none saved = Unit
IsSaved (some n) saved = saved ≡ some n

-- The resource that is selected is one of those offered.
abbrev pub IsOffered : List String → Option String → Type 0
IsOffered triggers none = Unit
IsOffered triggers (some r) = contains triggers r ≡ true

abbrev pub IsConsistent : Props → ListView → Type 0
IsConsistent p s =
    IsPaired s.chain_jobs s.build_map
    × IsSaved s.job s.saved.job
    × IsOffered (find_trigger_resources p.pipeline) s.resource
    × (s.saved.collapsed ≡ s.collapsed)

-- A resource is chosen among those offered.
abbrev pub IsPossible : Props → Action → Type 0
IsPossible p (answered_jobs jobs) = Unit
IsPossible p (answered_versions ids) = Unit
IsPossible p (answered_path d) = Unit
IsPossible p scope_cleared = Unit
IsPossible p (chose_job n) = Unit
IsPossible p (chose_resource r) = contains (find_trigger_resources p.pipeline) r ≡ true
IsPossible p (chose_version v) = Unit
IsPossible p toggled_resource_menu = Unit
IsPossible p toggled_version_menu = Unit
IsPossible p clicked_outside = Unit
IsPossible p (toggled_parallel key) = Unit
IsPossible p drew = Unit

module _ (p : Props) where
  select_job-IsConsistent :
      (n : String) (s : ListView) → IsConsistent p s → IsConsistent p (select_job p n s)
  unfolding select_job
  select_job-IsConsistent n s h = (h.0, refl, h.2, h.3)

  select_picked-IsConsistent :
      (o : Option String) (s : ListView) → IsConsistent p s → IsConsistent p (select_picked p o s)
  unfolding select_picked
  select_picked-IsConsistent none s h = h
  select_picked-IsConsistent (some n) s h = elim (Bool-cases (n == "")) [
    | inl e ↦ rw e h
    | inr e ↦ rw e (select_job-IsConsistent n s h)
  ]

  auto_select-IsConsistent : (s : ListView) → IsConsistent p s → IsConsistent p (auto_select p s)
  unfolding auto_select
  auto_select-IsConsistent s h = elim (Bool-cases (has_job s.job || is_empty s.jobs)) [
    | inl e ↦ rw e h
    | inr e ↦ rw e (select_picked-IsConsistent (pick_job s.jobs (chain_of p s) s.saved.job) s h)
  ]

  either_view :
      (b : Bool) (s t : ListView)
      → IsConsistent p s
      → IsConsistent p t
      → IsConsistent p (if b then s else t)
  either_view true s t h k = h
  either_view false s t h k = k

  select_first-IsConsistent :
      (names : List String) (s : ListView)
      → IsConsistent p s
      → IsConsistent p (select_first p names s)
  unfolding select_first
  select_first-IsConsistent [] s h = h
  select_first-IsConsistent (n ∷ names) s h = select_job-IsConsistent n s h

  select_again-IsConsistent :
      (job : Option String) (names : List String) (s : ListView)
      → IsConsistent p s
      → IsConsistent p (select_again p job names s)
  unfolding select_again
  select_again-IsConsistent none names s h = select_first-IsConsistent names s h
  select_again-IsConsistent (some n) names s h =
      elim (Bool-cases (not (n == "") && contains names n)) [
        | inl e ↦ rw e (select_job-IsConsistent n s h)
        | inr e ↦ rw e (select_first-IsConsistent names s h)
      ]

  reselect-IsConsistent :
      (old : Option (List String)) (names : List String) (s : ListView)
      → IsConsistent p s
      → IsConsistent p (reselect p old names s)
  unfolding reselect
  reselect-IsConsistent none names s h = select_again-IsConsistent s.job names s h
  reselect-IsConsistent (some old) names s h = h

  apply_scope-IsConsistent :
      (d : PathData) (s : ListView) → IsConsistent p s → IsConsistent p (apply_scope p d s)
  unfolding apply_scope
  apply_scope-IsConsistent d s h = elim (Option-cases d.path) [
    | inl e ↦ rw e h
    | inr (path, e) ↦
        let k = reselect-IsConsistent s.chain_jobs (path_names path) s h in rw e (tt, k.1, k.2, k.3)
  ]

  select_resource-IsConsistent :
      (r : String) (s : ListView)
      → contains (find_trigger_resources p.pipeline) r ≡ true
      → IsConsistent p s
      → IsConsistent p (select_resource r s)
  unfolding select_resource clear_scope
  select_resource-IsConsistent r s c h = elim (Bool-cases (r == "" || is_selected r s.resource)) [
    | inl e ↦ rw e h
    | inr e ↦ rw e (tt, tt, c, h.3)
  ]

  act-IsConsistent :
      (a : Action) (s : ListView) → IsPossible p a → IsConsistent p s → IsConsistent p (act p a s)
  unfolding act jobs_answered select_version toggle_parallel rendered clear_scope
  act-IsConsistent (answered_jobs jobs) s q h =
      auto_select-IsConsistent (record s { jobs = jobs }) h
  act-IsConsistent (answered_versions ids) s q h = h
  act-IsConsistent (answered_path d) s q h = apply_scope-IsConsistent d s h
  act-IsConsistent scope_cleared s q h = (tt, h.1, h.2, h.3)
  act-IsConsistent (chose_job n) s q h = select_job-IsConsistent n s h
  act-IsConsistent (chose_resource r) s q h = select_resource-IsConsistent r s q h
  act-IsConsistent (chose_version none) s q h = (tt, h.1, h.2, h.3)
  act-IsConsistent (chose_version (some v)) s q h = h
  act-IsConsistent toggled_resource_menu s q h = h
  act-IsConsistent toggled_version_menu s q h = h
  act-IsConsistent clicked_outside s q h = h
  act-IsConsistent (toggled_parallel key) s q h = (h.0, h.1, h.2, refl)
  act-IsConsistent drew s q h = h

  first_of-IsOffered : (triggers : List String) → IsOffered triggers (first_of triggers)
  unfolding first_of contains
  first_of-IsOffered [] = tt
  first_of-IsOffered (r ∷ rs) = rw (==_refl r) refl

  first_resource-IsOffered :
      (triggers : List String) (saved : Option String)
      → IsOffered triggers (first_resource triggers saved)
  unfolding first_resource
  first_resource-IsOffered triggers none = first_of-IsOffered triggers
  first_resource-IsOffered triggers (some r) =
      elim (Bool-cases (not (r == "") && contains triggers r)) [
        | inl e ↦ rw e (ground (arith, e))
        | inr e ↦ rw e (first_of-IsOffered triggers)
      ]

  settle-IsConsistent :
      (before s : ListView) → IsConsistent p s → IsConsistent p (settle p before s)
  unfolding settle
  settle-IsConsistent before s h =
      either_view (length (chain_of p s) == length (chain_of p before)) s (auto_select p s) h
        (auto_select-IsConsistent s h)

  act_all-IsConsistent :
      (actions : List Action) (s : ListView)
      → All (IsPossible p) actions
      → IsConsistent p s
      → IsConsistent p (act_all p actions s)
  unfolding act_all
  act_all-IsConsistent [] s q h = h
  act_all-IsConsistent (a ∷ rest) s (q, qs) h =
      act_all-IsConsistent rest (settle p s (act p a s)) qs
        (settle-IsConsistent s (act p a s) (act-IsConsistent a s q h))

-- After any actions in which a resource is chosen among those offered only, the jobs and the
-- builds of a version are in scope together or not at all, a job that is selected is the one
-- saved, a resource that is selected is one offered, and the groups that are folded are those
-- saved.
pub list_view-IsConsistent :
    (p : Props) (saved : Saved) (actions : List Action)
    → All (IsPossible p) actions
    → IsConsistent p (act_all p actions (new_view p saved))
unfolding new_view
list_view-IsConsistent p saved actions q =
    act_all-IsConsistent p actions _ q
      (tt, tt, first_resource-IsOffered p (find_trigger_resources p.pipeline) saved.resource, refl)
