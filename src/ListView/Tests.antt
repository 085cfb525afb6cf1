-- ===== src/ListView/Tests.antt =====
-- Runs of the list view.
use pikoci.Base.{
  suc, ◌+◌, ◌≤◌, String, Bool, true, false, ◌≡◌, refl, none, some, List, [], ◌∷◌, All, arith,
  length, contains, text_equality, Bool-cases, ◌⊎◌, ◌==◌, inl, inr,
}
use pikoci.Tree.{Tree, links_of}
use pikoci.Sort.{sort, insert}
use pikoci.ListView.Status.{
  JobData, statuses_of, override_all, override_job, update_last, is_called, override, is_running,
  last_called, entry_of, bare, set_key, get_key, row_status, or_nothing,
}
use pikoci.ListView.Handlers.{
  Props, Saved, Action, answered_jobs, chose_job, scope_cleared, answered_path, drew,
  toggled_parallel, PathData, act_all, new_view,
}
use pikoci.ListView.Consistent.{IsConsistent, list_view-IsConsistent}
use pikoci.ListView.Rows.{
  row, header, tree_rows, children_rows, draw_group, draw_groups, draw_below, group_kids, add_kid,
  group_key, join_commas, unmarked, mark, mark_all, parallel_group, member_rows, section,
  parent_rows, kid_rows, with_below, fan_in, fan_in_kids, fan_in_kid,
}
use pikoci.ListView.Count.{count, count_rows}
use pikoci.ListView.Once.{tree_rows_once}
use pikoci.ListView.Depth.{tree_rows_depth}

abbrev no_order : String → String → Bool
no_order a b = false

-- `test` and `lint` stand below `build`, and `deploy` below both.
abbrev diamond : Tree
diamond = record {
  roots = "build" ∷ [];
  graph = record {
    parents =
        ("build", [])
        ∷ ("test", "build" ∷ [])
        ∷ ("lint", "build" ∷ [])
        ∷ ("deploy", "test" ∷ "lint" ∷ [])
        ∷ [];
    children =
        ("build", "test" ∷ "lint" ∷ [])
        ∷ ("test", "deploy" ∷ [])
        ∷ ("lint", "deploy" ∷ [])
        ∷ ("deploy", [])
        ∷ [];
  };
}

diamond_rows :
    (tree_rows no_order 5 diamond).lines
    ≡ row "build" ∷ header "test,lint" ∷ row "test" ∷ row "lint" ∷ row "deploy" ∷ []
unfolding tree_rows children_rows draw_group draw_groups draw_below group_kids add_kid group_key
    join_commas sort insert unmarked mark mark_all parallel_group member_rows section parent_rows
    kid_rows with_below fan_in fan_in_kids fan_in_kid links_of contains
diamond_rows = refl

-- `deploy` gets two things passed by `build`: `buildTree` lists it twice, and so does the view.
abbrev twice : Tree
twice = record {
  roots = "build" ∷ [];
  graph = record {
    parents = ("build", []) ∷ ("deploy", "build" ∷ "build" ∷ []) ∷ [];
    children = ("build", "deploy" ∷ "deploy" ∷ []) ∷ ("deploy", []) ∷ [];
  };
}

twice_rows :
    (tree_rows no_order 3 twice).lines
    ≡ row "build" ∷ header "deploy,deploy" ∷ row "deploy" ∷ row "deploy" ∷ []
unfolding tree_rows children_rows draw_group draw_groups draw_below group_kids add_kid group_key
    join_commas sort insert unmarked mark mark_all parallel_group member_rows section parent_rows
    kid_rows with_below fan_in fan_in_kids fan_in_kid links_of contains
twice_rows = refl

diamond_children :
    (p : String)
    → (links_of diamond.graph.children p ≡ "test" ∷ "lint" ∷ [])
      ⊎ ((links_of diamond.graph.children p ≡ "deploy" ∷ [])
          ⊎ (links_of diamond.graph.children p ≡ []))
unfolding links_of
diamond_children p = elim (Bool-cases ("build" == p)) [
  | inl a ↦ rw a (inl refl)
  | inr a ↦ elim (Bool-cases ("test" == p)) [
    | inl b ↦ rw (a, b) (inr (inl refl))
    | inr b ↦ elim (Bool-cases ("lint" == p)) [
      | inl c ↦ rw (a, b, c) (inr (inl refl))
      | inr c ↦ elim (Bool-cases ("deploy" == p)) [
        | inl d ↦ rw (a, b, c, d) (inr (inr refl))
        | inr d ↦ rw (a, b, c, d) (inr (inr refl))
      ]
    ]
  ]
]

few_children : (p : String) → count "deploy" (links_of diamond.graph.children p) ≤ 1
few_children p = elim (diamond_children p) [
  | inl e ↦ rw e (ground arith)
  | inr e ↦ elim e [ inl f ↦ rw f (ground arith) | inr f ↦ rw f (ground arith) ]
]

tree_rows_once_example : count_rows "deploy" (tree_rows no_order 5 diamond).lines ≤ 1
tree_rows_once_example = tree_rows_once no_order 5 diamond "deploy" few_children (ground arith)

abbrev names : List String
names = "build" ∷ "test" ∷ "lint" ∷ "deploy" ∷ []

closed_children :
    (p : String) → All (λ n. contains names n ≡ true) (links_of diamond.graph.children p)
unfolding contains
closed_children p = elim (diamond_children p) [
  | inl e ↦ rw e (refl, (refl, tt))
  | inr e ↦ elim e [ inl f ↦ rw f (refl, tt) | inr f ↦ rw f tt ]
]

tree_rows_depth_example :
    tree_rows no_order (suc (length names)) diamond
    ≡ tree_rows no_order (7 + suc (length names)) diamond
unfolding contains
tree_rows_depth_example = tree_rows_depth no_order names diamond 7 ((refl, tt), closed_children)

abbrev job : String → String → JobData
job n status = record {
  name = some n;
  latest_status = some status;
  has_running = false;
  paused = false;
}

-- The status that a version in scope gives to a job stays when the scope is cleared, until the next answer.
kept_status :
    row_status (
      entry_of
        (statuses_of none
          (statuses_of (some (("test", "failed") ∷ [])) (job "test" "succeeded" ∷ [])).jobs)
        "test")
    ≡ "failed"
unfolding statuses_of override_all override_job update_last is_called override is_running
    last_called entry_of row_status or_nothing
kept_status = refl

-- A job of the path that is not among the jobs has a row without a name.
nameless : (entry_of (statuses_of (some (("test", "failed") ∷ [])) []) "test").name ≡ none
unfolding statuses_of override_all override_job last_called entry_of set_key get_key bare override
nameless = refl

abbrev props : Props
props = record { pipeline = record { jobs = none }; tracked_id = none; can_track = false }

abbrev saved : Saved
saved = record { resource = some "repo"; job = none; collapsed = [] }

abbrev path : PathData
path = record {
  path = some (record { job_name = "test"; build = some (some 4, "failed") } ∷ []);
  version = some "abc";
}

abbrev session : List Action
session =
    answered_jobs (job "test" "succeeded" ∷ [])
    ∷ answered_path path
    ∷ drew
    ∷ toggled_parallel "a,b"
    ∷ scope_cleared
    ∷ chose_job "lint"
    ∷ []

list_view-IsConsistent_example : IsConsistent props (act_all props session (new_view props saved))
list_view-IsConsistent_example =
    list_view-IsConsistent props saved session (tt, (tt, (tt, (tt, (tt, (tt, tt))))))
