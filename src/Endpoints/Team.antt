-- ===== src/Endpoints/Team.antt =====
-- The endpoints of a team that no pipeline is part of (api.js): its members, its pipelines as a list,
-- its secrets, its token for workers and its audit log.
use pikoci.Base.{
  String, Option, none, some, List, [], ◌∷◌, ◌++◌, if◌then◌else◌, ◌==◌, text_equality,
}
use pikoci.Endpoints.{post, put, delete, data_text, token_field, Request, reads, reads_data, sends}

pub data TeamCall : Type 0 where
  fetch_team : TeamCall
  update_team : String → TeamCall
  delete_team : TeamCall
  fetch_team_members : TeamCall
  add_team_member : String → TeamCall
  update_team_member : String → String → TeamCall
  remove_team_member : String → TeamCall
  fetch_pipelines : TeamCall
  fetch_pipelines_page : String → String → String → String → TeamCall  -- limit, offset, q, sort
  create_pipeline : String → TeamCall
  preview_pipeline_image : String → TeamCall
  fetch_secrets : Option String → TeamCall  -- of the team, or of one pipeline
  set_secret : Option String → String → TeamCall
  delete_secret : Option String → String → TeamCall
  generate_team_worker_token : TeamCall
  get_team_worker_token : TeamCall
  fetch_audit_log : Option (List (String × String)) → TeamCall

-- `if (params.q) params.set('q', q)`
unfoldable pub page_params : String → String → String → String → List (String × String)
page_params limit offset q sort =
    let first = ("limit", limit) ∷ ("offset", offset) ∷ ("sort", sort) ∷ [] in
    if q == "" then first else first ++ ("q", q) ∷ []

unfoldable pub secrets_path : String → Option String → List String
secrets_path tc none = "teams" ∷ tc ∷ "secrets" ∷ []
secrets_path tc (some pn) =
    if pn == ""
    then "teams" ∷ tc ∷ "secrets" ∷ []
    else "teams" ∷ tc ∷ "pipelines" ∷ pn ∷ "secrets" ∷ []

-- `params.toString()` is empty exactly when there are no parameters.
unfoldable pub audit_query : Option (List (String × String)) → Option (List (String × String))
audit_query none = none
audit_query (some []) = none
audit_query (some (p ∷ ps)) = some (p ∷ ps)

-- `encode` is `encodeURIComponent`.
unfoldable pub team_request : (String → String) → String → TeamCall → Request
team_request encode tc fetch_team = reads_data ("teams" ∷ tc ∷ [])
team_request encode tc (update_team d) = sends put ("teams" ∷ tc ∷ []) (some (data_text d))
team_request encode tc delete_team = sends delete ("teams" ∷ tc ∷ []) none
team_request encode tc fetch_team_members = reads_data ("teams" ∷ tc ∷ "members" ∷ [])
team_request encode tc (add_team_member d) =
    sends post ("teams" ∷ tc ∷ "members" ∷ []) (some (data_text d))
team_request encode tc (update_team_member u d) =
    sends put ("teams" ∷ tc ∷ "members" ∷ u ∷ []) (some (data_text d))
team_request encode tc (remove_team_member u) =
    sends delete ("teams" ∷ tc ∷ "members" ∷ u ∷ []) none
team_request encode tc fetch_pipelines = reads_data ("teams" ∷ tc ∷ "pipelines" ∷ [])
team_request encode tc (fetch_pipelines_page limit offset q sort) =
    record (reads ("teams" ∷ tc ∷ "pipelines" ∷ [])) {
      query = some (page_params limit offset q sort);
    }
team_request encode tc (create_pipeline d) =
    sends post ("teams" ∷ tc ∷ "pipelines" ∷ []) (some (data_text d))
team_request encode tc (preview_pipeline_image d) =
    sends post ("teams" ∷ tc ∷ "pipelines" ∷ "image.dot" ∷ []) (some (data_text d))
team_request encode tc (fetch_secrets pn) = reads_data (secrets_path tc pn)
team_request encode tc (set_secret pn d) = sends post (secrets_path tc pn) (some (data_text d))
team_request encode tc (delete_secret pn name) =
    sends delete (secrets_path tc pn ++ encode name ∷ []) none
team_request encode tc generate_team_worker_token =
    record (sends post ("teams" ∷ tc ∷ "worker-token" ∷ []) none) { result = token_field }
team_request encode tc get_team_worker_token = record (reads ("teams" ∷ tc ∷ "worker-token" ∷ [])) {
  result = token_field;
}
team_request encode tc (fetch_audit_log params) = record (reads ("teams" ∷ tc ∷ "audit" ∷ [])) {
  query = audit_query params;
}
