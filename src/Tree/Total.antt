-- ===== src/Tree/Total.antt =====
-- When `buildTree` throws.
use pikoci.Base.{
  String, true, false, Option, none, some, List, [], ◌∷◌, or_empty, filter, ◌==◌, text_equality,
  contains, ◌≡◌, refl, arith, ==_refl, Bool-cases, inl, inr, Option-cases, All,
}
use mathlib.Core.Path.{subst}
use pikoci.JsObject.{is_set, is_inherited}
use pikoci.Chain.{Job, PlanStep, Pipeline}
use pikoci.Tree.{
  has_links, Graph, Tree, is_root, link, link_passed, link_plan, link_job, link_jobs, passed_of,
  job_named, build_tree, ◌>>=◌,
}
use pikoci.Tree.Links.{push_total, has_links-push, has_links_start, has_links_of_contains, no_links}
use pikoci.Tree.Laws.{passes, start, tree-Adds}

-- Every name of the chain, and no other, has its two arrays.
abbrev HasKeys : List String → Graph → Type 0
HasKeys chain g =
    (k : String)
    → (has_links g.parents k ≡ contains chain k) × (has_links g.children k ≡ contains chain k)

abbrev Returns : List String → Option Graph → Type 0
Returns chain r = (g : Graph) × (r ≡ some g) × HasKeys chain g

abbrev ArePlain : List String → Type 0
ArePlain = All (λ n. is_inherited n ≡ false)

module _ (chain : List String) where
  link_total :
      (name m : String) (g : Graph)
      → contains chain name ≡ true
      → contains chain m ≡ true
      → HasKeys chain g
      → Returns chain (link name m g)
  unfolding link
  link_total name m g c d keys =
      let (p, e) = push_total name m g.parents (ground (arith, keys name)) in
      let (q, f) = push_total m name g.children (ground (arith, keys m)) in
      (
        record { parents = p; children = q },
        rw (e, f),
        λ k. ground (
          arith,
          keys k,
          has_links-push name m g.parents p k e,
          has_links-push m name g.children q k f,
        ),
      )

  Returns-bind :
      (r : Option Graph) (f : Graph → Option Graph)
      → Returns chain r
      → ((g : Graph) → HasKeys chain g → Returns chain (f g))
      → Returns chain (r >>= f)
  Returns-bind r f (g, e, keys) next = rw e (next g keys)

  module _ (name : String) (here : contains chain name ≡ true) where
    link_passed_total :
        (passed : List String) (g : Graph)
        → ArePlain passed
        → HasKeys chain g
        → Returns chain (link_passed chain name passed g)
    unfolding link_passed
    link_passed_total [] g plain keys = (g, refl, keys)
    link_passed_total (m ∷ passed) g plain keys = elim (Bool-cases (is_set chain m)) [
      | inl e ↦
          rw (e, link_passed)
            (Returns-bind (link name m g) (link_passed chain name passed)
              (link_total name m g here (unfold is_set in ground (arith, e, plain)) keys)
              (λ g' k. link_passed_total passed g' plain.1 k))
      | inr e ↦ rw (e, link_passed) (link_passed_total passed g plain.1 keys)
    ]

    link_plan_total :
        (plan : List PlanStep) (g : Graph)
        → All (λ s. ArePlain (passed_of s)) plan
        → HasKeys chain g
        → Returns chain (link_plan chain name plan g)
    unfolding link_plan
    link_plan_total [] g plain keys = (g, refl, keys)
    link_plan_total (s ∷ plan) g plain keys =
        Returns-bind (link_passed chain name (passed_of s) g) (link_plan chain name plan)
          (link_passed_total (passed_of s) g plain.0 keys)
          (λ g' k. link_plan_total plan g' plain.1 k)

-- No job gets anything passed by an inherited name.
abbrev pub PassesPlain : List Job → Type 0
PassesPlain = All (λ j. All (λ s. ArePlain (passed_of s)) (or_empty j.plan))

job_named-PassesPlain :
    (jobs : List Job) (name : String) (j : Job)
    → PassesPlain jobs
    → job_named jobs name ≡ some j
    → All (λ s. ArePlain (passed_of s)) (or_empty j.plan)
job_named-PassesPlain [] name j h e = cc
job_named-PassesPlain (i ∷ jobs) name j h e = elim (Bool-cases (i.name == name)) [
  | inl k ↦ subst (λ o. All (λ s. ArePlain (passed_of s)) (or_empty (plan_of o))) (rw k at e) h.0
  | inr k ↦ job_named-PassesPlain jobs name j h.1 (rw k at e)
]
  where
    plan_of : Option Job → Option (List PlanStep)
    plan_of none = none
    plan_of (some j) = j.plan

module _ (jobs : List Job) (chain : List String) (plain : PassesPlain jobs) where
  link_jobs_total :
      (names : List String) (g : Graph)
      → All (λ n. contains chain n ≡ true) names
      → HasKeys chain g
      → Returns chain (link_jobs jobs chain names g)
  unfolding link_jobs link_job
  link_jobs_total [] g here keys = (g, refl, keys)
  link_jobs_total (n ∷ names) g here keys =
      Returns-bind chain (link_job jobs chain n g) (link_jobs jobs chain names) one
        (λ g' k. link_jobs_total names g' here.1 k)
    where
      one : Returns chain (link_job jobs chain n g)
      one = elim (Option-cases (job_named jobs n)) [
        | inl e ↦ rw (e, link_job) (g, refl, keys)
        | inr (j, e) ↦
            rw (e, link_job)
              (link_plan_total chain n here.0 (or_empty j.plan) g
                (job_named-PassesPlain jobs n j plain e) keys)
      ]

All_contains :
    (chain names : List String)
    → ((n : String) → contains names n ≡ true → contains chain n ≡ true)
    → All (λ n. contains chain n ≡ true) names
unfolding contains
All_contains chain [] h = tt
All_contains chain (n ∷ names) h =
    (h n (ground (arith, ==_refl n)), All_contains chain names (λ m c. h m (ground arith)))

-- If no job gets anything passed by a name that every object inherits, then the tree of any chain
-- is built.
pub build_tree_total :
    (p : Pipeline) (chain : List String)
    → PassesPlain (or_empty p.jobs)
    → (t : Tree) × (build_tree p chain ≡ some t)
unfolding build_tree
build_tree_total p chain plain =
    let (g, e, keys) =
      link_jobs_total (or_empty p.jobs) chain plain chain (start chain)
        (All_contains chain chain (λ n c. c))
        (λ k. (has_links_start chain k, has_links_start chain k)) in
    (record { roots = filter (is_root g) chain; graph = g }, rw e)

-- If the first definition of a job of the chain gets something passed by an inherited name that is
-- not in the chain, then `buildTree` throws.
build_tree_throws :
    (p : Pipeline) (chain : List String) (n m : String)
    → contains chain n ≡ true
    → passes (or_empty p.jobs) n m ≡ true
    → is_inherited m ≡ true
    → contains chain m ≡ false
    → build_tree p chain ≡ none
unfolding is_set
build_tree_throws p chain n m here passed inherited absent =
    elim (Option-cases (build_tree p chain)) [
      | inl e ↦ e
      | inr (t, e) ↦ ground (
        arith,
        tree-Adds p chain t e n m,
        has_links_start chain m,
        no_links chain m n,
        has_links_of_contains t.children m n,
      )
    ]
