-- ===== src/Endpoints/Routing.antt =====
-- What the server reads in the path of a request, when it splits it at the slashes.
use pikoci.Base.{
  String, ◌≡◌, ap, ◌∙◌, ◌≢◌, inl, inr, some, List, [], ◌∷◌, ◌++◌, map, All, Bool-cases, ◌==◌,
  text_equality, arith, ==_iff,
}
use pikoci.Text.{Chars, codes, split}
use pikoci.Endpoints.{Request, render}
use pikoci.Endpoints.Team.{TeamCall, team_request, secrets_path, delete_secret}
use pikoci.Endpoints.Pipeline.{PipelineCall, pipeline_request}
use pikoci.Endpoints.Paths.{HasNoSlash, split-render, tail_parts}
use pikoci.Endpoints.Scope.{StartsWith, team_request-StartsWith, pipeline_request-StartsWith}

-- The name can stand in a path as it is.
abbrev pub IsPlain : String → Type 0
IsPlain name = HasNoSlash (codes name)

-- The first parts of the request's path are `front`.
abbrev pub IsUnder : List String → Request → Type 0
IsUnder front r = (rest : List Chars) × (split b'/' (render r.path) ≡ [] ∷ map codes front ++ rest)

render-IsUnder :
    (front : List String) (r : Request) → All IsPlain front → StartsWith front r → IsUnder front r
render-IsUnder front r h (rest, e) =
    (tail_parts rest, ap (λ p. split b'/' (render p)) e ∙ split-render front rest h)

-- If the name of the team has no slash, then the address of every request of the team, split at
-- the slashes, begins with teams and the team, whatever the other arguments hold.
team_request-IsUnder :
    (encode : String → String) (tc : String) (c : TeamCall)
    → IsPlain tc
    → IsUnder ("teams" ∷ tc ∷ []) (team_request encode tc c)
team_request-IsUnder encode tc c h =
    render-IsUnder ("teams" ∷ tc ∷ []) (team_request encode tc c) (ground arith, (h, tt))
      (team_request-StartsWith encode tc c)

-- If the names of the team and of the pipeline have no slash, then the address of every request of
-- the pipeline, split at the slashes, begins with teams, the team, pipelines and the pipeline,
-- whatever the other arguments hold.
pub pipeline_request-IsUnder :
    (tc pn : String) (c : PipelineCall)
    → IsPlain tc
    → IsPlain pn
    → IsUnder ("teams" ∷ tc ∷ "pipelines" ∷ pn ∷ []) (pipeline_request tc pn c)
pipeline_request-IsUnder tc pn c h k =
    render-IsUnder ("teams" ∷ tc ∷ "pipelines" ∷ pn ∷ []) (pipeline_request tc pn c)
      (ground arith, (h, (ground arith, (k, tt)))) (pipeline_request-StartsWith tc pn c)

-- If the escape of a text never has a slash, the names of the team and of the pipeline have none
-- and the name of the pipeline is not empty, then the address that deletes a secret of the
-- pipeline splits at its slashes into exactly its six parts, the escaped name last, for every name
-- of a secret.
delete_secret_parts :
    (encode : String → String) (tc pn name : String)
    → ((text : String) → IsPlain (encode text))
    → IsPlain tc
    → IsPlain pn
    → pn ≢ ""
    → split b'/' (render (team_request encode tc (delete_secret (some pn) name)).path)
      ≡ []
        ∷ codes "teams"
        ∷ codes tc
        ∷ codes "pipelines"
        ∷ codes pn
        ∷ codes "secrets"
        ∷ codes (encode name)
        ∷ []
unfolding team_request secrets_path tail_parts
delete_secret_parts encode tc pn name plain h k n = elim (Bool-cases (pn == "")) [
  | inl e ↦ absurd (n ((==_iff pn "").0 e))
  | inr e ↦ rw e (
      split-render ("teams" ∷ tc ∷ "pipelines" ∷ pn ∷ "secrets" ∷ encode name ∷ []) []
        (ground arith, (h, (ground arith, (k, (ground arith, (plain name, tt)))))))
]
