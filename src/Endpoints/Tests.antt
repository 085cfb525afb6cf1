-- ===== src/Endpoints/Tests.antt =====
-- Runs of the endpoints.
use pikoci.Base.{String, ◌≡◌, refl, none, [], ◌∷◌, arith}
use pikoci.Text.{codes}
use pikoci.Endpoints.{render, one, many, append_params}
use pikoci.Endpoints.Pipeline.{pipeline_request, trigger_job}
use pikoci.Endpoints.Routing.{IsUnder, pipeline_request-IsUnder}

-- What `encodeURIComponent` does to a text without characters to escape: here, to every text.
abbrev encode_sample : String → String
encode_sample text = "a%2Fb"

sent_path :
    codes "/teams/main/pipelines/ci/jobs/test/trigger"
    ≡ render (pipeline_request "main" "ci" (trigger_job "test" none)).path
unfolding render pipeline_request
sent_path = refl

sent_params :
    append_params (("since", one "3") ∷ ("id", many ("4" ∷ "5" ∷ [])) ∷ [])
    ≡ ("since", "3") ∷ ("id", "4") ∷ ("id", "5") ∷ []
unfolding append_params
sent_params = refl

pipeline_request-IsUnder_example :
    IsUnder
      ("teams" ∷ "main" ∷ "pipelines" ∷ "ci" ∷ [])
      (pipeline_request "main" "ci" (trigger_job "test" none))
pipeline_request-IsUnder_example =
    pipeline_request-IsUnder "main" "ci" (trigger_job "test" none) (ground arith) (ground arith)
