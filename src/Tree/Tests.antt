-- ===== src/Tree/Tests.antt =====
-- The tree of the jobs of a pipeline, and the theorems about it there.
use pikoci.Base.{
  String, some, [], ◌∷◌, ◌≡◌, refl, List, contains, ◌&&◌, or_empty, text_equality, arith,
}
use pikoci.JsObject.{is_set, is_inherited}
use pikoci.Chain.Samples.{delivery}
use pikoci.Tree.{
  Tree, links_of, clear, push, init, link, link_passed, link_plan, link_job, link_jobs, passed_of,
  build_tree,
}
use pikoci.Tree.Laws.{passes, tree-parents}
use pikoci.Tree.Total.{build_tree_total}

abbrev chain : List String
chain = "build" ∷ "test" ∷ "lint" ∷ "deploy" ∷ []

abbrev tree : Tree
tree = record {
  roots = "build" ∷ [];
  graph = record {
    parents =
        ("build", [])
        ∷ ("test", "build" ∷ [])
        ∷ ("lint", "build" ∷ [])
        ∷ ("deploy", "test" ∷ "lint" ∷ [])
        ∷ [];
    children =
        ("build", "test" ∷ "lint" ∷ [])
        ∷ ("test", "deploy" ∷ [])
        ∷ ("lint", "deploy" ∷ [])
        ∷ ("deploy", [])
        ∷ [];
  };
}

tree_of_delivery : build_tree delivery chain ≡ some tree
unfolding build_tree link_jobs link_job link_plan link_passed link push init clear links_of
    passed_of is_set is_inherited contains
tree_of_delivery = refl

tree-parents_example : contains (links_of tree.parents "deploy") "lint" ≡ (
    contains chain "deploy"
    && (passes (or_empty delivery.jobs) "deploy" "lint" && contains chain "lint"))
tree-parents_example = tree-parents delivery chain tree tree_of_delivery "deploy" "lint"

build_tree_total_example : (t : Tree) × (build_tree delivery chain ≡ some t)
unfolding is_inherited passed_of contains
build_tree_total_example = build_tree_total delivery chain (ground arith)
