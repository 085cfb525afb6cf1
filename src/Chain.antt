-- ===== src/Chain.antt =====
-- The helpers of the pipeline's list view (components/PipelineListView.js): the resources that
-- trigger jobs, the chain of jobs that a resource reaches, and the tree of that chain.
-- `null` and `undefined` fields are `none`.
pub mod Reach
pub mod Visits
pub mod Rounds
pub mod Complete
pub mod Samples
mod Tests
use pikoci.Base.{
  ℕ, zero, suc, String, Bool, true, false, not, ◌&&◌, ◌||◌, Option, none, some, List, [], ◌∷◌, ◌++◌,
  length, or_empty, any, if◌then◌else◌, ◌==◌, text_equality, contains,
}
use pikoci.JsObject.{is_set}

pub record Get : Type 0 where
  pub type : String
  pub name : String
  pub trigger : Bool
  pub passed : Option (List String)

pub record PlanStep : Type 0 where
  pub type : String
  pub get : Option Get

pub record Job : Type 0 where
  pub name : String
  pub plan : Option (List PlanStep)

pub record Pipeline : Type 0 where
  pub jobs : Option (List Job)

abbrev append : String → String → String
append = Prim.Native.String.◌++◌

-- `s.get.type + '.' + s.get.name`
unfoldable pub canonical_of : Get → String
canonical_of g = append g.type (append "." g.name)

-- `!s.get.passed || s.get.passed.length === 0`
unfoldable pub has_no_passed : Get → Bool
has_no_passed g = elim g.passed [
  | none ↦ true
  | some names ↦ elim names [ [] ↦ true | _ ∷ _ ↦ false ]
]

-- `s.type === 'get' && s.get`, with the value of `s.get`
unfoldable pub get_of : PlanStep → Option Get
get_of s = if s.type == "get" then s.get else none

-- The condition of the inner loop of `findTriggerResources`, with the name to report.
unfoldable pub trigger_of : PlanStep → Option String
unfolding get_of has_no_passed canonical_of
trigger_of s = elim (get_of s) [
  | none ↦ none
  | some g ↦ if g.trigger && has_no_passed g then some (canonical_of g) else none
]

-- One round of the inner loop; the names in `result` are those set in `seen`.
unfoldable pub note_trigger : List String → Option String → List String
note_trigger result none = result
note_trigger result (some canonical) =
    if is_set result canonical then result else result ++ canonical ∷ []

unfoldable pub triggers_in_plan : List PlanStep → List String → List String
triggers_in_plan [] result = result
triggers_in_plan (s ∷ plan) result = triggers_in_plan plan (note_trigger result (trigger_of s))

unfoldable pub triggers_in_jobs : List Job → List String → List String
triggers_in_jobs [] result = result
triggers_in_jobs (j ∷ jobs) result =
    triggers_in_jobs jobs (triggers_in_plan (or_empty j.plan) result)

unfoldable pub find_trigger_resources : Pipeline → List String
find_trigger_resources p = triggers_in_jobs (or_empty p.jobs) []

-- The state of `resolveChain`; `visited` lists the names set, the oldest first.
pub record Search : Type 0 where
  pub visited : List String
  pub queue : List String
  pub chain : List String

-- `visited[name] = true; queue.push(name)`
unfoldable pub enqueue : String → Search → Search
enqueue n s = record s { visited = s.visited ++ n ∷ []; queue = s.queue ++ n ∷ [] }

-- A step that gets the resource directly.
unfoldable pub enters : String → PlanStep → Bool
unfolding get_of has_no_passed canonical_of
enters resource s = elim (get_of s) [
  | none ↦ false
  | some g ↦ canonical_of g == resource && has_no_passed g
]

unfoldable pub enter_plan : String → String → List PlanStep → Search → Search
enter_plan resource n [] s = s
enter_plan resource n (p ∷ plan) s =
    enter_plan resource n plan
      (if enters resource p && not (is_set s.visited n) then enqueue n s else s)

-- The first loop of `resolveChain`.
unfoldable pub enter_jobs : String → List Job → Search → Search
enter_jobs resource [] s = s
enter_jobs resource (j ∷ jobs) s =
    enter_jobs resource jobs (enter_plan resource j.name (or_empty j.plan) s)

-- `s.type === 'get' && s.get && s.get.passed`, and the loop over `passed`
unfoldable pub follows : String → PlanStep → Bool
unfolding get_of contains
follows n s = elim (get_of s) [ none ↦ false | some g ↦ contains (or_empty g.passed) n ]

-- The body of the loop over the jobs: a visited job is skipped, and the plan is left at the first
-- step that follows the job just taken from the queue.
unfoldable pub visit_job : String → Job → Search → Search
visit_job n j s =
    if is_set s.visited j.name
    then s
    else if any (follows n) (or_empty j.plan)
    then enqueue j.name s
    else s

unfoldable pub visit_jobs : String → List Job → Search → Search
visit_jobs n [] s = s
visit_jobs n (j ∷ jobs) s = visit_jobs n jobs (visit_job n j s)

-- `queue.shift()` and `chain.push(jobName)`
unfoldable pub take_next : String → List String → Search → Search
take_next n rest s = record s { queue = rest; chain = s.chain ++ n ∷ [] }

-- The breadth-first search, with a bound on its rounds.
unfoldable pub search_from : ℕ → List Job → Search → Search
search_from zero jobs s = s
search_from (suc fuel) jobs s = elim s.queue [
  | [] ↦ s
  | n ∷ rest ↦ search_from fuel jobs (visit_jobs n jobs (take_next n rest s))
]

abbrev pub no_search : Search
no_search = record { visited = []; queue = []; chain = [] }

-- The state at the end of `resolveChain`. Each round takes a job that was visited once, so as many
-- rounds as there are jobs are enough.
unfoldable pub resolve_search : Pipeline → String → Search
resolve_search p resource =
    search_from (length (or_empty p.jobs)) (or_empty p.jobs)
      (enter_jobs resource (or_empty p.jobs) no_search)

unfoldable pub resolve_chain : Pipeline → String → List String
resolve_chain p resource = (resolve_search p resource).chain
