-- ===== src/Models/Settings.antt =====
-- backend/internal/config/config.go: the settings.
use second_brain.Prelude.{Bool, List, Text, ℤ}

pub record Config : Type 0 where
  pub env : Text
  pub port : Text
  pub owner_id : Text
  pub public_owner_id : Text
  pub public_owner_handle : Text
  pub public_owner_email : Text
  pub database_url : Text
  pub supabase_url : Text
  pub supabase_publishable_key : Text
  pub object_storage_backend : Text
  pub object_storage_root : Text
  pub object_storage_bucket : Text
  pub allowed_origins : List Text
  pub one_cli_bin : Text
  pub one_cli_gateway : Bool
  pub one_cli_project : Text
  pub one_cli_x_access_secret_id : Text
  pub one_cli_x_refresh_secret_id : Text
  pub x_bookmark_limit : ℤ
  pub x_bookmark_process_limit : ℤ
  pub knowledge_run_path : Text
  pub x_client_id : Text
  pub x_client_secret : Text
  pub x_redirect_uri : Text
  pub x_oauth_scopes : List Text
  pub x_session_secret : Text
  pub x_session_cookie_name : Text
  pub x_token_encryption_key : Text
  pub x_token_refresh_direct : Bool
  pub x_require_stored_oauth : Bool
  pub x_expected_username : Text
  pub x_reauthorize_command : Text
  pub x_keychain_token_suffix : Text
  pub x_token_rotation_path : Text
  pub youtube_playlist_id : Text
  pub youtube_transcript_test_video_id : Text
  pub supadata_monthly_request_limit : ℤ
  pub openai_translation_model : Text
  pub openai_synthesis_model : Text
  pub openai_chat_model : Text
  pub openai_embedding_model : Text
  pub openai_image_model : Text
  pub langfuse_tracing_enabled : Bool
  pub langfuse_public_key : Text
  pub langfuse_secret_key : Text
  pub langfuse_base_url : Text
  pub langfuse_prompt_management_enabled : Bool
  pub langfuse_prompt_label : Text
  pub langfuse_digest_prompt_name : Text
  pub public_base_url : Text
  pub digest_email_to : Text
  pub digest_email_from : Text
  pub resend_api_key : Text
  pub digest_timezone : Text
  pub digest_time : Text
  pub refresh_timeout : Text
  pub process_worker_count : ℤ
  pub worker_refresh_interval : Text
  pub redis_url : Text
  pub redis_cache_enabled : Bool
  pub redis_cache_ttl : Text
  pub redis_refresh_status_ttl : Text
  pub redis_ask_answer_ttl : Text
  pub cloudflare_api_token : Text
  pub cloudflare_zone_id : Text
  pub cloudflare_api_base_url : Text
  pub cloudflare_cache_purge_enabled : Bool
  pub memory_profiling_enabled : Bool
  pub memory_profiling_token : Text
  pub neo4j_uri : Text
  pub neo4j_username : Text
  pub neo4j_password : Text
  pub neo4j_database : Text
  pub graph_sync_batch_size : ℤ
  pub log_level : Text
  pub log_error_stack : Bool
  pub log_debug_sample_rate : ℤ
