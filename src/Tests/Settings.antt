-- ===== src/Tests/Settings.antt =====
-- A configuration with every setting blank.
use second_brain.Prelude.{[], false, pos}
use second_brain.Models.{Config}

abbrev pub blank_config : Config
blank_config = record {
  env = [];
  port = [];
  owner_id = [];
  public_owner_id = [];
  public_owner_handle = [];
  public_owner_email = [];
  database_url = [];
  supabase_url = [];
  supabase_publishable_key = [];
  object_storage_backend = [];
  object_storage_root = [];
  object_storage_bucket = [];
  allowed_origins = [];
  one_cli_bin = [];
  one_cli_gateway = false;
  one_cli_project = [];
  one_cli_x_access_secret_id = [];
  one_cli_x_refresh_secret_id = [];
  x_bookmark_limit = pos 0;
  x_bookmark_process_limit = pos 0;
  knowledge_run_path = [];
  x_client_id = [];
  x_client_secret = [];
  x_redirect_uri = [];
  x_oauth_scopes = [];
  x_session_secret = [];
  x_session_cookie_name = [];
  x_token_encryption_key = [];
  x_token_refresh_direct = false;
  x_require_stored_oauth = false;
  x_expected_username = [];
  x_reauthorize_command = [];
  x_keychain_token_suffix = [];
  x_token_rotation_path = [];
  youtube_playlist_id = [];
  youtube_transcript_test_video_id = [];
  supadata_monthly_request_limit = pos 0;
  openai_translation_model = [];
  openai_synthesis_model = [];
  openai_chat_model = [];
  openai_embedding_model = [];
  openai_image_model = [];
  langfuse_tracing_enabled = false;
  langfuse_public_key = [];
  langfuse_secret_key = [];
  langfuse_base_url = [];
  langfuse_prompt_management_enabled = false;
  langfuse_prompt_label = [];
  langfuse_digest_prompt_name = [];
  public_base_url = [];
  digest_email_to = [];
  digest_email_from = [];
  resend_api_key = [];
  digest_timezone = [];
  digest_time = [];
  refresh_timeout = [];
  process_worker_count = pos 0;
  worker_refresh_interval = [];
  redis_url = [];
  redis_cache_enabled = false;
  redis_cache_ttl = [];
  redis_refresh_status_ttl = [];
  redis_ask_answer_ttl = [];
  cloudflare_api_token = [];
  cloudflare_zone_id = [];
  cloudflare_api_base_url = [];
  cloudflare_cache_purge_enabled = false;
  memory_profiling_enabled = false;
  memory_profiling_token = [];
  neo4j_uri = [];
  neo4j_username = [];
  neo4j_password = [];
  neo4j_database = [];
  graph_sync_batch_size = pos 0;
  log_level = [];
  log_error_stack = false;
  log_debug_sample_rate = pos 0;
}
