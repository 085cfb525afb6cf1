-- ===== src/Endpoints/Pipeline.antt =====
-- The endpoints of one pipeline of a team (api.js): the pipeline, its jobs and their builds, its
-- resources and their versions.
use pikoci.Base.{String, Bool, Option, none, some, List, [], ◌∷◌}
use pikoci.Endpoints.{
  post, put, delete, Body, data_text, message, version_id, input_values, Request, reads, reads_data,
  sends, Value, append_params,
}

pub data PipelineCall : Type 0 where
  fetch_pipeline : PipelineCall
  update_pipeline : String → PipelineCall
  delete_pipeline : PipelineCall
  pause_pipeline : PipelineCall
  unpause_pipeline : PipelineCall
  fetch_pipeline_image : Option (List (String × String)) → PipelineCall
  fetch_jobs : PipelineCall
  fetch_job : String → PipelineCall
  trigger_job : String → Option (List (String × String)) → PipelineCall
  pause_job : String → PipelineCall
  unpause_job : String → PipelineCall
  fetch_builds : String → Option (List (String × Value)) → PipelineCall
  cancel_build : String → String → PipelineCall
  fetch_build : String → String → PipelineCall
  retry_build : String → String → PipelineCall
  approve_build : String → String → String → PipelineCall
  reject_build : String → String → String → PipelineCall
  mark_build_as_warning : String → String → PipelineCall
  fetch_build_report : String → String → PipelineCall
  fetch_resources : PipelineCall
  fetch_resource : String → PipelineCall
  trigger_resource : String → PipelineCall
  pin_resource : String → String → PipelineCall
  unpin_resource : String → PipelineCall
  fetch_resource_versions : String → Option (List (String × String)) → PipelineCall
  fetch_version_path : String → String → Bool → PipelineCall  -- the option `silent`
  trigger_version : String → String → PipelineCall
  regenerate_webhook_token : String → PipelineCall

-- `inputValues && Object.keys(inputValues).length > 0`
unfoldable pub trigger_body : Option (List (String × String)) → Option Body
trigger_body none = none
trigger_body (some []) = none
trigger_body (some (v ∷ vs)) = some (input_values (v ∷ vs))

unfoldable pub builds_query : Option (List (String × Value)) → Option (List (String × String))
builds_query none = none
builds_query (some params) = some (append_params params)

unfoldable pub pipeline_request : String → String → PipelineCall → Request
pipeline_request tc pn fetch_pipeline = reads_data ("teams" ∷ tc ∷ "pipelines" ∷ pn ∷ [])
pipeline_request tc pn (update_pipeline d) =
    sends put ("teams" ∷ tc ∷ "pipelines" ∷ pn ∷ []) (some (data_text d))
pipeline_request tc pn delete_pipeline = sends delete ("teams" ∷ tc ∷ "pipelines" ∷ pn ∷ []) none
pipeline_request tc pn pause_pipeline =
    sends post ("teams" ∷ tc ∷ "pipelines" ∷ pn ∷ "pause" ∷ []) none
pipeline_request tc pn unpause_pipeline =
    sends post ("teams" ∷ tc ∷ "pipelines" ∷ pn ∷ "unpause" ∷ []) none
pipeline_request tc pn (fetch_pipeline_image params) =
    record (reads ("teams" ∷ tc ∷ "pipelines" ∷ pn ∷ "image.dot" ∷ [])) { query = params }
pipeline_request tc pn fetch_jobs = reads_data ("teams" ∷ tc ∷ "pipelines" ∷ pn ∷ "jobs" ∷ [])
pipeline_request tc pn (fetch_job jn) =
    reads_data ("teams" ∷ tc ∷ "pipelines" ∷ pn ∷ "jobs" ∷ jn ∷ [])
pipeline_request tc pn (trigger_job jn values) =
    sends post ("teams" ∷ tc ∷ "pipelines" ∷ pn ∷ "jobs" ∷ jn ∷ "trigger" ∷ [])
      (trigger_body values)
pipeline_request tc pn (pause_job jn) =
    sends post ("teams" ∷ tc ∷ "pipelines" ∷ pn ∷ "jobs" ∷ jn ∷ "pause" ∷ []) none
pipeline_request tc pn (unpause_job jn) =
    sends post ("teams" ∷ tc ∷ "pipelines" ∷ pn ∷ "jobs" ∷ jn ∷ "unpause" ∷ []) none
pipeline_request tc pn (fetch_builds jn params) =
    record (reads ("teams" ∷ tc ∷ "pipelines" ∷ pn ∷ "jobs" ∷ jn ∷ "builds" ∷ [])) {
      query = builds_query params;
    }
pipeline_request tc pn (cancel_build jn b) =
    sends post ("teams" ∷ tc ∷ "pipelines" ∷ pn ∷ "jobs" ∷ jn ∷ "builds" ∷ b ∷ "cancel" ∷ []) none
pipeline_request tc pn (fetch_build jn b) =
    reads_data ("teams" ∷ tc ∷ "pipelines" ∷ pn ∷ "jobs" ∷ jn ∷ "builds" ∷ b ∷ [])
pipeline_request tc pn (retry_build jn b) =
    sends post ("teams" ∷ tc ∷ "pipelines" ∷ pn ∷ "jobs" ∷ jn ∷ "builds" ∷ b ∷ "retry" ∷ []) none
pipeline_request tc pn (approve_build jn b m) =
    sends post ("teams" ∷ tc ∷ "pipelines" ∷ pn ∷ "jobs" ∷ jn ∷ "builds" ∷ b ∷ "approve" ∷ [])
      (some (message m))
pipeline_request tc pn (reject_build jn b m) =
    sends post ("teams" ∷ tc ∷ "pipelines" ∷ pn ∷ "jobs" ∷ jn ∷ "builds" ∷ b ∷ "reject" ∷ [])
      (some (message m))
pipeline_request tc pn (mark_build_as_warning jn b) =
    sends put ("teams" ∷ tc ∷ "pipelines" ∷ pn ∷ "jobs" ∷ jn ∷ "builds" ∷ b ∷ "warning" ∷ []) none
pipeline_request tc pn (fetch_build_report jn b) =
    reads ("teams" ∷ tc ∷ "pipelines" ∷ pn ∷ "jobs" ∷ jn ∷ "builds" ∷ b ∷ "report" ∷ [])
pipeline_request tc pn fetch_resources =
    reads_data ("teams" ∷ tc ∷ "pipelines" ∷ pn ∷ "resources" ∷ [])
pipeline_request tc pn (fetch_resource r) =
    reads_data ("teams" ∷ tc ∷ "pipelines" ∷ pn ∷ "resources" ∷ r ∷ [])
pipeline_request tc pn (trigger_resource r) =
    sends post ("teams" ∷ tc ∷ "pipelines" ∷ pn ∷ "resources" ∷ r ∷ "trigger" ∷ []) none
pipeline_request tc pn (pin_resource r v) =
    sends post ("teams" ∷ tc ∷ "pipelines" ∷ pn ∷ "resources" ∷ r ∷ "pin" ∷ [])
      (some (version_id v))
pipeline_request tc pn (unpin_resource r) =
    sends post ("teams" ∷ tc ∷ "pipelines" ∷ pn ∷ "resources" ∷ r ∷ "unpin" ∷ []) none
pipeline_request tc pn (fetch_resource_versions r params) =
    record (reads ("teams" ∷ tc ∷ "pipelines" ∷ pn ∷ "resources" ∷ r ∷ "versions" ∷ [])) {
      query = params;
    }
pipeline_request tc pn (fetch_version_path r v s) =
    record (reads
      ("teams" ∷ tc ∷ "pipelines" ∷ pn ∷ "resources" ∷ r ∷ "versions" ∷ v ∷ "path" ∷ [])) {
        silent = s;
      }
pipeline_request tc pn (trigger_version r v) =
    sends post ("teams" ∷ tc ∷ "pipelines" ∷ pn ∷ "resources" ∷ r ∷ "versions" ∷ v ∷ "trigger" ∷ [])
      none
pipeline_request tc pn (regenerate_webhook_token r) =
    sends post ("teams" ∷ tc ∷ "pipelines" ∷ pn ∷ "resources" ∷ r ∷ "webhook_token" ∷ []) none
