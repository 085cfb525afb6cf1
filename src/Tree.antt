-- ===== src/Tree.antt =====
-- `buildTree` of components/PipelineListView.js: the jobs of a chain with their parents and
-- children in the chain. A call of `push` on what is no array throws a TypeError: `none`.
-- A chain that holds the name `__proto__`, which `resolveChain` never puts there, is not modelled.
pub mod Links
pub mod Laws
pub mod Total
mod Tests
use pikoci.Base.{
  String, Bool, true, false, ◌&&◌, Option, none, some, List, [], ◌∷◌, ◌++◌, length, or_empty, any,
  filter, find, if◌then◌else◌, ◌==◌, text_equality, contains, number_equality, ◌>>=◌,
}
use pikoci.JsObject.{is_set}
use pikoci.Chain.{Job, PlanStep, Pipeline, get_of, follows}

-- An object whose own properties are arrays of names.
abbrev pub Links : Type 0
Links = List (String × List String)

-- `links[k] || []`
unfoldable pub links_of : Links → String → List String
links_of [] k = []
links_of ((j, l) ∷ d) k = if j == k then l else links_of d k

unfoldable pub has_links : Links → String → Bool
has_links [] k = false
has_links ((j, l) ∷ d) k = if j == k then true else has_links d k

-- `links[k] = []`
unfoldable pub clear : String → Links → Links
clear k [] = (k, []) ∷ []
clear k ((j, l) ∷ d) = if j == k then (j, []) ∷ d else (j, l) ∷ clear k d

-- `links[k].push(v)`
unfoldable pub push : String → String → Links → Option Links
push k v [] = none
push k v ((j, l) ∷ d) = do
  let rest = push k v d
  if j == k then some ((j, l ++ v ∷ []) ∷ d) else rest >>= λ d'. some ((j, l) ∷ d')

pub record Graph : Type 0 where
  pub parents : Links
  pub children : Links

pub record Tree : Type 0 where
  pub roots : List String
  pub graph : Graph
  pub open graph use *

-- The first loop: an empty array for every name of the chain.
unfoldable pub init : List String → Links → Links
init [] d = d
init (n ∷ chain) d = init chain (clear n d)

unfoldable pub link : String → String → Graph → Option Graph
link name m g = do
  parents ← push name m g.parents
  children ← push m name g.children
  some (record { parents = parents; children = children })

-- The loop over `passed`.
unfoldable pub link_passed : List String → String → List String → Graph → Option Graph
link_passed chain name [] g = some g
link_passed chain name (m ∷ passed) g =
    (if is_set chain m then link name m g else some g) >>= link_passed chain name passed

unfoldable pub passed_of : PlanStep → List String
unfolding get_of
passed_of s = elim (get_of s) [ none ↦ [] | some g ↦ or_empty g.passed ]

-- The loop over the plan.
unfoldable pub link_plan : List String → String → List PlanStep → Graph → Option Graph
link_plan chain name [] g = some g
link_plan chain name (s ∷ plan) g =
    link_passed chain name (passed_of s) g >>= link_plan chain name plan

abbrev pub job_named : List Job → String → Option Job
job_named jobs name = find (λ j. j.name == name) jobs

unfoldable pub link_job : List Job → List String → String → Graph → Option Graph
link_job jobs chain name g = elim (job_named jobs name) [
  | none ↦ some g
  | some j ↦ link_plan chain name (or_empty j.plan) g
]

-- The loop over the chain.
unfoldable pub link_jobs : List Job → List String → List String → Graph → Option Graph
link_jobs jobs chain [] g = some g
link_jobs jobs chain (name ∷ names) g = link_job jobs chain name g >>= link_jobs jobs chain names

abbrev pub is_root : Graph → String → Bool
is_root g n = length (links_of g.parents n) == 0

unfoldable pub build_tree : Pipeline → List String → Option Tree
build_tree p chain = do
  g ←
      link_jobs (or_empty p.jobs) chain chain
        (record { parents = init chain []; children = init chain [] })
  some (record { roots = filter (is_root g) chain; graph = g })
