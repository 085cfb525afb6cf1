-- ===== src/Tree/Laws.antt =====
-- What `buildTree` computes: for every job of the chain the jobs of the chain that it gets something
-- passed by, and the same edges from the other end.
use pikoci.Base.{
  String, Bool, true, false, ◌&&◌, ◌||◌, none, some, List, [], ◌∷◌, length, or_empty, any, filter,
  ◌==◌, text_equality, contains, contains-concat, ◌≡◌, refl, ap, arith, ==_iff, Bool-cases, inl,
  inr, Option-cases, List-cases, contains_nothing, contains-filter, same_number_iff, &&_left, ◌↔◌,
  number_equality,
}
use pikoci.JsObject.{is_set}
use pikoci.Chain.{Job, PlanStep, Pipeline, follows}
use pikoci.Tree.{
  links_of, has_links, push, init, Graph, Tree, link, link_passed, link_plan, link_job, link_jobs,
  passed_of, job_named, is_root, build_tree,
}
use pikoci.Tree.Links.{
  >>=-eq-some, links_of-push, has_links-push, has_links_start, no_links, has_links_of_contains,
}

-- `m` is a parent of `n`, or `n` a child of `m`.
abbrev pub parent_in : Graph → String → String → Bool
parent_in g n m = contains (links_of g.parents n) m

abbrev pub child_in : Graph → String → String → Bool
child_in g m n = contains (links_of g.children m) n

-- The edges of `g'` are those of `g` and the edge from `a` to `b` where `edge` holds, at both ends;
-- the names with an array stay the same.
abbrev pub Adds : Graph → Graph → String → String → Bool → Type 0
Adds g g' a b edge =
    (parent_in g' a b ≡ (parent_in g a b || edge))
    × (child_in g' b a ≡ (child_in g b a || edge))
    × (has_links g'.parents a ≡ has_links g.parents a)
    × (has_links g'.children b ≡ has_links g.children b)

link-Adds :
    (name m : String) (g g' : Graph) (a b : String)
    → link name m g ≡ some g'
    → Adds g g' a b (name == a && m == b)
unfolding link
link-Adds name m g g' a b h =
    let (p, e, h1) = >>=-eq-some (push name m g.parents) _ h in
    let (c, f, h2) = >>=-eq-some (push m name g.children) _ h1 in
    ground (
      arith,
      links_of-push name m g.parents p a e,
      contains-concat (links_of g.parents name) m b,
      ==_iff name a,
      links_of-push m name g.children c b f,
      contains-concat (links_of g.children m) name a,
      ==_iff m b,
      has_links-push name m g.parents p a e,
      has_links-push m name g.children c b f,
    )

module _ (chain : List String) (name a b : String) where
  link_passed-Adds :
      (passed : List String) (g g' : Graph)
      → link_passed chain name passed g ≡ some g'
      → Adds g g' a b (name == a && (contains passed b && is_set chain b))
  unfolding link_passed contains
  link_passed-Adds [] g g' h = ground arith
  link_passed-Adds (m ∷ passed) g g' h = elim (Bool-cases (is_set chain m)) [
    | inl e ↦
        let (g1, f, h1) = >>=-eq-some (link name m g) (link_passed chain name passed) (rw e at h) in
        ground (arith, link-Adds name m g g1 a b f, link_passed-Adds passed g1 g' h1, ==_iff m b)
    | inr e ↦ ground (arith, link_passed-Adds passed g g' (rw e at h), ==_iff m b)
  ]

  follows-passed_of : (s : PlanStep) → follows b s ≡ contains (passed_of s) b
  unfolding follows passed_of contains
  follows-passed_of s = ground arith

  link_plan-Adds :
      (plan : List PlanStep) (g g' : Graph)
      → link_plan chain name plan g ≡ some g'
      → Adds g g' a b (name == a && (any (follows b) plan && is_set chain b))
  unfolding link_plan
  link_plan-Adds [] g g' h = ground arith
  link_plan-Adds (s ∷ plan) g g' h =
      let (g1, f, h1) =
        >>=-eq-some (link_passed chain name (passed_of s) g) (link_plan chain name plan) h in
      ground (
        arith,
        link_passed-Adds (passed_of s) g g1 f,
        follows-passed_of s,
        link_plan-Adds plan g1 g' h1,
      )

-- The first job of that name gets something passed by `m`.
unfoldable pub passes : List Job → String → String → Bool
passes jobs n m = elim (job_named jobs n) [
  | none ↦ false
  | some j ↦ any (follows m) (or_empty j.plan)
]

module _ (jobs : List Job) (chain : List String) (a b : String) where
  link_job-Adds :
      (name : String) (g g' : Graph)
      → link_job jobs chain name g ≡ some g'
      → Adds g g' a b (name == a && (passes jobs name b && is_set chain b))
  unfolding link_job passes
  link_job-Adds name g g' h = elim (Option-cases (job_named jobs name)) [
    | inl e ↦ let k : some g ≡ some g' = rw (e, link_job) at h in rw (e, passes) (ground (arith, k))
    | inr (j, e) ↦
        rw (e, passes)
          (link_plan-Adds chain name a b (or_empty j.plan) g g' (rw (e, link_job) at h))
  ]

  link_jobs-Adds :
      (names : List String) (g g' : Graph)
      → link_jobs jobs chain names g ≡ some g'
      → Adds g g' a b (contains names a && (passes jobs a b && is_set chain b))
  unfolding link_jobs contains
  link_jobs-Adds [] g g' h = ground arith
  link_jobs-Adds (name ∷ names) g g' h =
      let (g1, f, h1) = >>=-eq-some (link_job jobs chain name g) (link_jobs jobs chain names) h in
      let k = link_job-Adds name g g1 f in
      let l = link_jobs-Adds names g1 g' h1 in ground (arith, k, l, ==_iff name a)

abbrev pub start : List String → Graph
start chain = record { parents = init chain []; children = init chain [] }

module _ (p : Pipeline) (chain : List String) (t : Tree) (built : build_tree p chain ≡ some t) where
  built_graph :
      (link_jobs (or_empty p.jobs) chain chain (start chain) ≡ some t.graph)
      × (t.roots ≡ filter (is_root t.graph) chain)
  unfolding build_tree
  built_graph =
      let (g, e, h) = >>=-eq-some (link_jobs (or_empty p.jobs) chain chain (start chain)) _ built in
      (ground (arith, e, h), ground (arith, e, h))

  pub tree-Adds :
      (a b : String)
      → Adds
          (start chain)
          t.graph
          a
          b
          (contains chain a && (passes (or_empty p.jobs) a b && is_set chain b))
  tree-Adds a b =
      link_jobs-Adds (or_empty p.jobs) chain a b chain (start chain) t.graph built_graph.0

  -- Of a tree that is built, the parents of a name are, if it is in the chain, the jobs of the
  -- chain that its first definition gets something passed by; otherwise there are none.
  pub tree-parents :
      (n m : String)
      → contains (links_of t.parents n) m
        ≡ (contains chain n && (passes (or_empty p.jobs) n m && contains chain m))
  unfolding is_set
  tree-parents n m = ground (
    arith,
    tree-Adds n m,
    has_links_start chain m,
    no_links chain n m,
    no_links chain m n,
    has_links_of_contains t.children m n,
  )

  -- Of a tree that is built, a name is a child of another exactly if that one is its parent.
  tree-children :
      (n m : String) → contains (links_of t.children m) n ≡ contains (links_of t.parents n) m
  tree-children n m = ground (arith, tree-Adds n m, no_links chain n m, no_links chain m n)

  root_iff :
      (n : String)
      → (is_root t.graph n ≡ true) ↔ ((m : String) → contains (links_of t.parents n) m ≡ false)
  unfolding contains
  root_iff n = (
    λ h m. elim (List-cases (links_of t.parents n)) [
      | inl e ↦ rw e refl
      | inr (x, xs, e) ↦
          absurd
            (omega (arith, ap length e, (same_number_iff (length (links_of t.parents n)) 0).0 h))
    ],
    λ h. rw (contains_nothing (links_of t.parents n) h) refl,
  )

  -- Of a tree that is built, the roots are the jobs of the chain whose first definition gets
  -- nothing passed by a job of the chain.
  tree-roots :
      (n : String)
      → (contains t.roots n ≡ true) ↔ (
          (contains chain n ≡ true)
          × ((m : String) → contains chain m ≡ true → passes (or_empty p.jobs) n m ≡ false))
  tree-roots n = (
    λ h.
        let k : (contains chain n && is_root t.graph n) ≡ true =
          rw (built_graph.1, contains-filter (is_root t.graph) chain n) at h in
        (&&_left _ _ k, λ m c. ground (arith, (root_iff n).0 (ground arith) m, tree-parents n m)),
    λ h.
        rw (built_graph.1, contains-filter (is_root t.graph) chain n)
          (ground (arith, h.0, (root_iff n).1 (λ m. ground (arith, tree-parents n m, h.1 m)))),
  )
