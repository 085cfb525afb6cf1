-- ===== src/Endpoints/Scope.antt =====
-- What every request of a pipeline, and every request of a team, has in front of its path.
use pikoci.Base.{
  String, ◌≡◌, refl, ap, inl, inr, Option, none, some, List, [], ◌∷◌, ◌++◌, Bool-cases, ◌==◌,
  text_equality,
}
use pikoci.Endpoints.{Request}
use pikoci.Endpoints.Team.{
  TeamCall, team_request, secrets_path, fetch_team, update_team, delete_team, fetch_team_members,
  add_team_member, update_team_member, remove_team_member, fetch_pipelines, fetch_pipelines_page,
  create_pipeline, preview_pipeline_image, fetch_secrets, set_secret, delete_secret,
  generate_team_worker_token, get_team_worker_token, fetch_audit_log,
}
use pikoci.Endpoints.Pipeline.{
  PipelineCall, pipeline_request, fetch_pipeline, update_pipeline, delete_pipeline, pause_pipeline,
  unpause_pipeline, fetch_pipeline_image, fetch_jobs, fetch_job, trigger_job, pause_job,
  unpause_job, fetch_builds, cancel_build, fetch_build, retry_build, approve_build, reject_build,
  mark_build_as_warning, fetch_build_report, fetch_resources, fetch_resource, trigger_resource,
  pin_resource, unpin_resource, fetch_resource_versions, fetch_version_path, trigger_version,
  regenerate_webhook_token,
}

abbrev pub StartsWith : List String → Request → Type 0
StartsWith front r = (rest : List String) × (r.path ≡ front ++ rest)

secrets_path_front :
    (tc : String) (pn : Option String)
    → (rest : List String) × (secrets_path tc pn ≡ "teams" ∷ tc ∷ rest)
unfolding secrets_path
secrets_path_front tc none = (_, refl)
secrets_path_front tc (some pn) = elim (Bool-cases (pn == "")) [
  | inl e ↦ rw e (_, refl)
  | inr e ↦ rw e (_, refl)
]

pub team_request-StartsWith :
    (encode : String → String) (tc : String) (c : TeamCall)
    → StartsWith ("teams" ∷ tc ∷ []) (team_request encode tc c)
unfolding team_request
team_request-StartsWith encode tc fetch_team = (_, refl)
team_request-StartsWith encode tc (update_team a) = (_, refl)
team_request-StartsWith encode tc delete_team = (_, refl)
team_request-StartsWith encode tc fetch_team_members = (_, refl)
team_request-StartsWith encode tc (add_team_member a) = (_, refl)
team_request-StartsWith encode tc (update_team_member a b) = (_, refl)
team_request-StartsWith encode tc (remove_team_member a) = (_, refl)
team_request-StartsWith encode tc fetch_pipelines = (_, refl)
team_request-StartsWith encode tc (fetch_pipelines_page a b c d) = (_, refl)
team_request-StartsWith encode tc (create_pipeline a) = (_, refl)
team_request-StartsWith encode tc (preview_pipeline_image a) = (_, refl)
team_request-StartsWith encode tc (fetch_secrets a) = secrets_path_front tc a
team_request-StartsWith encode tc (set_secret a b) = secrets_path_front tc a
team_request-StartsWith encode tc (delete_secret a b) =
    (_, ap (λ p. p ++ encode b ∷ []) (secrets_path_front tc a).1)
team_request-StartsWith encode tc generate_team_worker_token = (_, refl)
team_request-StartsWith encode tc get_team_worker_token = (_, refl)
team_request-StartsWith encode tc (fetch_audit_log a) = (_, refl)

pub pipeline_request-StartsWith :
    (tc pn : String) (c : PipelineCall)
    → StartsWith ("teams" ∷ tc ∷ "pipelines" ∷ pn ∷ []) (pipeline_request tc pn c)
unfolding pipeline_request
pipeline_request-StartsWith tc pn fetch_pipeline = (_, refl)
pipeline_request-StartsWith tc pn (update_pipeline a) = (_, refl)
pipeline_request-StartsWith tc pn delete_pipeline = (_, refl)
pipeline_request-StartsWith tc pn pause_pipeline = (_, refl)
pipeline_request-StartsWith tc pn unpause_pipeline = (_, refl)
pipeline_request-StartsWith tc pn (fetch_pipeline_image a) = (_, refl)
pipeline_request-StartsWith tc pn fetch_jobs = (_, refl)
pipeline_request-StartsWith tc pn (fetch_job a) = (_, refl)
pipeline_request-StartsWith tc pn (trigger_job a b) = (_, refl)
pipeline_request-StartsWith tc pn (pause_job a) = (_, refl)
pipeline_request-StartsWith tc pn (unpause_job a) = (_, refl)
pipeline_request-StartsWith tc pn (fetch_builds a b) = (_, refl)
pipeline_request-StartsWith tc pn (cancel_build a b) = (_, refl)
pipeline_request-StartsWith tc pn (fetch_build a b) = (_, refl)
pipeline_request-StartsWith tc pn (retry_build a b) = (_, refl)
pipeline_request-StartsWith tc pn (approve_build a b c) = (_, refl)
pipeline_request-StartsWith tc pn (reject_build a b c) = (_, refl)
pipeline_request-StartsWith tc pn (mark_build_as_warning a b) = (_, refl)
pipeline_request-StartsWith tc pn (fetch_build_report a b) = (_, refl)
pipeline_request-StartsWith tc pn fetch_resources = (_, refl)
pipeline_request-StartsWith tc pn (fetch_resource a) = (_, refl)
pipeline_request-StartsWith tc pn (trigger_resource a) = (_, refl)
pipeline_request-StartsWith tc pn (pin_resource a b) = (_, refl)
pipeline_request-StartsWith tc pn (unpin_resource a) = (_, refl)
pipeline_request-StartsWith tc pn (fetch_resource_versions a b) = (_, refl)
pipeline_request-StartsWith tc pn (fetch_version_path a b c) = (_, refl)
pipeline_request-StartsWith tc pn (trigger_version a b) = (_, refl)
pipeline_request-StartsWith tc pn (regenerate_webhook_token a) = (_, refl)
