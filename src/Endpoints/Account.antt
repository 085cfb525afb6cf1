-- ===== src/Endpoints/Account.antt =====
-- The endpoints that no team is part of (api.js): the session, the users, the tokens, the workers, the
-- providers and the editor's local mode.
use pikoci.Base.{String, true, none, some, [], ◌∷◌}
use pikoci.Endpoints.{post, put, delete, data_text, data_field, Request, reads, reads_data, sends}

pub data AccountCall : Type 0 where
  post_login : String → AccountCall
  post_refresh_token : AccountCall
  fetch_version : AccountCall
  fetch_teams : AccountCall
  create_team : String → AccountCall
  fetch_users : AccountCall
  fetch_user : String → AccountCall
  create_user : String → AccountCall
  update_user : String → String → AccountCall
  delete_user : String → AccountCall
  update_profile : String → AccountCall
  change_password : String → AccountCall
  fetch_api_tokens : AccountCall
  create_api_token : String → AccountCall
  delete_api_token : String → AccountCall
  fetch_workers : AccountCall
  fetch_workers_health : AccountCall
  delete_worker : String → AccountCall
  fetch_auth_methods : AccountCall
  post_oauth_complete_profile : String → AccountCall
  fetch_oauth_providers : AccountCall
  create_oauth_provider : String → AccountCall
  update_oauth_provider : String → String → AccountCall
  delete_oauth_provider : String → AccountCall
  fetch_admin_auth_settings : AccountCall
  update_admin_auth_settings : String → AccountCall
  fetch_linked_accounts : AccountCall
  unlink_account : String → AccountCall
  save_local_config : String → AccountCall

unfoldable pub account_request : AccountCall → Request
account_request (post_login d) = sends post ("login" ∷ []) (some (data_text d))
account_request post_refresh_token = sends post ("refresh-token" ∷ []) none
account_request fetch_version = reads ("version" ∷ [])
account_request fetch_teams = reads_data ("teams" ∷ [])
account_request (create_team d) = record (sends post ("teams" ∷ []) (some (data_text d))) {
  result = data_field;
}
account_request fetch_users = reads_data ("users" ∷ [])
account_request (fetch_user u) = reads_data ("users" ∷ u ∷ [])
account_request (create_user d) = sends post ("users" ∷ []) (some (data_text d))
account_request (update_user u d) = sends put ("users" ∷ u ∷ []) (some (data_text d))
account_request (delete_user u) = sends delete ("users" ∷ u ∷ []) none
account_request (update_profile d) = sends put ("profile" ∷ []) (some (data_text d))
account_request (change_password d) =
    sends post ("users" ∷ "change-password" ∷ []) (some (data_text d))
account_request fetch_api_tokens = reads_data ("api-tokens" ∷ [])
account_request (create_api_token d) = sends post ("api-tokens" ∷ []) (some (data_text d))
account_request (delete_api_token i) = sends delete ("api-tokens" ∷ i ∷ []) none
account_request fetch_workers = reads_data ("workers" ∷ [])
account_request fetch_workers_health = reads ("workers" ∷ "health" ∷ [])
account_request (delete_worker n) = sends delete ("workers" ∷ n ∷ []) none
account_request fetch_auth_methods = record (reads_data ("auth" ∷ "methods" ∷ [])) { silent = true }
account_request (post_oauth_complete_profile d) =
    sends post ("auth" ∷ "oauth" ∷ "complete-profile" ∷ []) (some (data_text d))
account_request fetch_oauth_providers = reads_data ("admin" ∷ "oauth-providers" ∷ [])
account_request (create_oauth_provider d) =
    sends post ("admin" ∷ "oauth-providers" ∷ []) (some (data_text d))
account_request (update_oauth_provider c d) =
    sends put ("admin" ∷ "oauth-providers" ∷ c ∷ []) (some (data_text d))
account_request (delete_oauth_provider c) = sends delete ("admin" ∷ "oauth-providers" ∷ c ∷ []) none
account_request fetch_admin_auth_settings = reads_data ("admin" ∷ "auth-settings" ∷ [])
account_request (update_admin_auth_settings d) =
    sends put ("admin" ∷ "auth-settings" ∷ []) (some (data_text d))
account_request fetch_linked_accounts = reads_data ("profile" ∷ "linked-accounts" ∷ [])
account_request (unlink_account c) = sends delete ("profile" ∷ "linked-accounts" ∷ c ∷ []) none
account_request (save_local_config d) = sends post ("local" ∷ "save" ∷ []) (some (data_text d))
