-- ===== src/Chain/Tests.antt =====
-- Runs of `findTriggerResources` and `resolveChain`, and their theorems at these pipelines.
use pikoci.Base.{true, [], ◌∷◌, ◌≡◌, refl, contains, ◌↔◌, or_empty, text_equality, arith}
use pikoci.JsObject.{is_set, is_inherited}
use pikoci.Chain.{
  find_trigger_resources, triggers_in_jobs, triggers_in_plan, note_trigger, trigger_of,
  resolve_chain, resolve_search, search_from, enter_jobs, enter_plan, visit_jobs, visit_job,
  enqueue, take_next, enters, follows,
}
use pikoci.Chain.Reach.{Reach}
use pikoci.Chain.Complete.{resolve_search-queue, resolve_chain-Reach}
use pikoci.Chain.Samples.{delivery, unlucky}

triggers_of_delivery : find_trigger_resources delivery ≡ "git.repo" ∷ "git.image" ∷ []
unfolding find_trigger_resources triggers_in_jobs triggers_in_plan note_trigger trigger_of is_set
    is_inherited contains
triggers_of_delivery = refl

chain_of_delivery : resolve_chain delivery "git.repo" ≡ "build" ∷ "test" ∷ "lint" ∷ "deploy" ∷ []
unfolding resolve_chain resolve_search search_from enter_jobs enter_plan visit_jobs visit_job
    enqueue take_next is_set is_inherited contains enters follows
chain_of_delivery = refl

-- Two of the four jobs are missing.
chain_of_unlucky : resolve_chain unlucky "git.repo" ≡ "build" ∷ "late" ∷ []
unfolding resolve_chain resolve_search search_from enter_jobs enter_plan visit_jobs visit_job
    enqueue take_next is_set is_inherited contains enters follows
chain_of_unlucky = refl

resolve_search-queue_example : (resolve_search delivery "git.repo").queue ≡ []
resolve_search-queue_example = resolve_search-queue delivery "git.repo"

resolve_chain-Reach_example :
    (contains (resolve_chain delivery "git.repo") "deploy" ≡ true)
    ↔ Reach (or_empty delivery.jobs) "git.repo" "deploy"
unfolding is_inherited contains
resolve_chain-Reach_example = resolve_chain-Reach delivery "git.repo" (ground arith) "deploy"
