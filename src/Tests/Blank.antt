-- ===== src/Tests/Blank.antt =====
-- Blank values of the records, from which the examples start.
use second_brain.Prelude.{[], false, none, pos}
use second_brain.Models.{
  AppStateSourceCounts, DigestIssue, Insight, Result, SourceCandidate, SourceStatuses, Summary,
  XBookmark, YouTubeItem, RefreshStatus,
}
use second_brain.ReadModel.State.{AppState}

abbrev pub blank_x_bookmark : XBookmark
blank_x_bookmark = record {
  id = [];
  content_type = [];
  text = [];
  title = [];
  body = [];
  preview_text = [];
  expanded_url = [];
  author_id = [];
  author_name = [];
  username = [];
  created_at = [];
  public_metrics = [];
  source_url = [];
}

abbrev pub blank_youtube_item : YouTubeItem
blank_youtube_item = record {
  video_id = [];
  title = [];
  description = [];
  channel_title = [];
  published_at = [];
  duration_seconds = pos 0;
  source_url = [];
  transcript_status = [];
  transcript_lang = [];
  transcript_source_lang = [];
  transcript_available_langs = [];
  transcript_translation_status = [];
  transcript_preview = [];
  transcript_original_preview = [];
  transcript_error = [];
  important_time_markers = [];
  transcript_text = [];
  transcript_original_text = [];
  transcript_timed_text = [];
}

abbrev pub blank_source_candidate : SourceCandidate
blank_source_candidate = record {
  source_type = [];
  external_id = [];
  source_url = [];
  title = [];
  author_name = [];
  username = [];
  published_at = [];
  body = [];
  artifact_kind = [];
  content_type = [];
}

abbrev pub blank_summary : Summary
blank_summary = record {
  id = [];
  source = [];
  title = [];
  source_url = [];
  decision = [];
  summary = [];
  quote = [];
  confidence = [];
  notes = [];
  quality = none;
  important_time_markers = [];
  cache_status = [];
  capture_hash = [];
  prompt_version = [];
  model = [];
  generated_at = none;
}

abbrev pub blank_insight : Insight
blank_insight = record {
  id = [];
  source = [];
  source_id = [];
  title = [];
  insight = [];
  raw_insight = [];
  canonical_insight = [];
  abstract_insight = [];
  practical_text = [];
  mechanism = [];
  insight_type = [];
  domain = [];
  topics = [];
  entities = [];
  evidence = [];
  evidence_refs = [];
  source_url = [];
  confidence = [];
  explicit_or_inferred = [];
  importance_score = 0;
  novelty_score = 0;
  actionability_score = 0;
  quality = none;
  embedding_text = [];
  cache_status = [];
  generated_at = none;
}

abbrev pub blank_source_statuses : SourceStatuses
blank_source_statuses = record { x = []; youtube = []; one_cli = [] }

abbrev pub blank_app_state_source_counts : AppStateSourceCounts
blank_app_state_source_counts = record { x_bookmarks = pos 0; youtube_items = pos 0 }

abbrev pub blank_result : Result
blank_result = record {
  generated_at = 0;
  source_status = blank_source_statuses;
  source_counts = blank_app_state_source_counts;
  x_bookmarks = none;
  youtube_items = none;
  summaries = none;
  insights = none;
  action_items = none;
  artifacts = none;
  processing = none;
  themes = none;
  insight_clusters = none;
  connections = none;
  digest = none;
  validation = none;
  blockers = none;
}

abbrev pub blank_digest_issue : DigestIssue
blank_digest_issue = record {
  owner_id = [];
  id = [];
  digest_date = [];
  scheduled_for = 0;
  idempotency_key = [];
  subject = [];
  body_markdown = [];
  status = [];
  illustration_prompt = [];
  illustration_alt = [];
  illustration_mime_type = [];
  illustration_model = [];
  illustration_available = false;
  illustration_base64 = [];
  illustration_url = [];
  deliveries = [];
  source_refs = [];
}

abbrev pub blank_refresh_status : RefreshStatus
blank_refresh_status = record {
  id = [];
  status = [];
  started_at = 0;
  finished_at = none;
  error = [];
  phase = [];
  message = [];
  elapsed_seconds = 0;
}

abbrev pub blank_app_state : AppState
blank_app_state = record {
  manifest = record {
    schema_version = [];
    run_id = [];
    generated_at = 0;
    published_at = 0;
    etag = [];
    graph_status = [];
    digest_status = [];
  };
  latest = none;
  views = record {
    insights = none;
    daily_newsletter = none;
    original_x_bookmarks = none;
    original_youtube_posts = none;
  };
  source_counts = blank_app_state_source_counts;
  digests = none;
  refresh_status = blank_refresh_status;
  graph = record {
    status = [];
    themes = none;
    insight_clusters = none;
    connections = none;
    insight_graph = none;
  };
  ask_context = record { run_id = []; sources = none; updated_at = 0 };
}
