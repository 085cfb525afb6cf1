-- ===== src/Chain/Samples.antt =====
-- Pipelines for the tests of the list view.
use pikoci.Base.{String, true, some, List, [], ◌∷◌}
use pikoci.Chain.{Job, Pipeline}

-- A job that gets the resource `git.<res>`, passed by the jobs named.
abbrev pub job : String → String → List String → Job
job n res passed = record {
  name = n;
  plan = some (
      record {
        type = "get";
        get = some (record { type = "git"; name = res; trigger = true; passed = some passed });
      }
      ∷ []);
}

abbrev pub pipeline : List Job → Pipeline
pipeline jobs = record { jobs = some jobs }

-- Declared in another order than they run in.
abbrev pub delivery : Pipeline
delivery = pipeline (
    job "deploy" "repo" ("test" ∷ "lint" ∷ [])
    ∷ job "build" "repo" []
    ∷ job "test" "repo" ("build" ∷ [])
    ∷ job "lint" "repo" ("build" ∷ [])
    ∷ job "other" "image" []
    ∷ [])

-- A job with the name of a property of `Object.prototype`.
abbrev pub unlucky : Pipeline
unlucky = pipeline (
    job "constructor" "repo" []
    ∷ job "after" "repo" ("constructor" ∷ [])
    ∷ job "build" "repo" []
    ∷ job "late" "repo" ("build" ∷ "valueOf" ∷ [])
    ∷ [])
