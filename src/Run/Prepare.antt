-- ===== src/Run/Prepare.antt =====
-- `RunCycle` of service.go down to `filterNewSourceCandidates`: what is fetched and which candidates
-- are new. What the fetches, the store, the cache and the models answer are parameters.
use second_brain.Prelude.{
  Bool, List, Option, Text, [], codes, if◌then◌else◌, is_nil, is_some, length, ltb, negsuc, none,
  not, pos, some, take, trim, ℤ, ◌&&◌, ◌++◌, ◌==◌, ◌∷◌, Outcome, err, ok,
}
use second_brain.Models.{
  Config, Insight, InsightCluster, ProcessedSource, Result, Slice, SourceCandidate,
  SourceConnection, SourceMaterialKey, SourceProviderConnection, ThemeCluster, Time, XBookmark,
  YouTubeItem, items,
}
use second_brain.Storage.Upload.{Host}
use second_brain.Material.Selection.{
  States, filter_new_source_candidates, source_material_keys_from_fetched,
}
use second_brain.Material.Candidates.{candidates_from_bookmarks, candidates_from_videos}
use second_brain.Material.Cache.{CacheAnswer, StatesRead, read_source_material_states}
use second_brain.Run.Transcripts.{Ledger, Provider, TranscriptSettings, fetch_transcripts}

-- What is answered to the calls of one cycle. A fetch may return items beside an error. `process`
-- is `processSourceCandidates`, and the last five are the functions of learning.go.
pub record Answers : Type 0 where
  pub now : Time
  pub one_cli_status : Text
  pub x_items : Slice XBookmark
  pub x_error : Option Text
  pub connections : Outcome Text (List SourceProviderConnection)
  pub playlist_items : Slice YouTubeItem
  pub playlist_error : Option Text
  pub store : List SourceMaterialKey → Outcome Text States
  pub cache : CacheAnswer
  pub latest : Option Result
  pub latest_error : Option Text
  pub process : List SourceCandidate → List ProcessedSource × List Text
  pub save_error : Option Text
  pub enrich : List ProcessedSource → List ProcessedSource
  pub build_theme_clusters : List ProcessedSource → Slice ThemeCluster
  pub build_insight_clusters : List ProcessedSource → Slice InsightCluster
  pub rank_insights : Slice Insight → Slice InsightCluster → Slice Insight
  pub build_source_connections : List ProcessedSource → Slice SourceConnection

abbrev pub error_texts : Option Text → List Text
error_texts none = []
error_texts (some e) = e ∷ []

abbrev pub latest_error_texts : Option Text → List Text
latest_error_texts none = []
latest_error_texts (some e) = (codes "latest run lookup failed: " ++ e) ∷ []

abbrev pub default_owner_id : Text
default_owner_id = codes "00000000-0000-0000-0000-000000000001"

unfoldable pub is_public_owner : Config → Bool
is_public_owner cfg =
    let public_owner =
      if is_nil (trim cfg.public_owner_id) then default_owner_id else trim cfg.public_owner_id in
    trim cfg.owner_id == public_owner

-- The first connection to YouTube that names a playlist.
unfoldable pub connected_playlist : List SourceProviderConnection → Option Text
connected_playlist [] = none
connected_playlist (c ∷ cs) =
    let rest = connected_playlist cs in
    if c.provider == codes "youtube" && not (is_nil (trim c.provider_account_id))
    then some (trim c.provider_account_id)
    else rest

abbrev pub connections_read :
    Outcome Text (List SourceProviderConnection) → List SourceProviderConnection
connections_read (err e) = []
connections_read (ok cs) = cs

unfoldable pub owner_youtube_playlist_id :
    Config → Outcome Text (List SourceProviderConnection) → Text
unfolding is_public_owner connected_playlist
owner_youtube_playlist_id cfg connections =
    elim (connected_playlist (connections_read connections)) [
      | some id ↦ id
      | none ↦ if is_public_owner cfg then trim cfg.youtube_playlist_id else []
    ]

-- `if limit > 0 && len(candidates) > limit { candidates = candidates[:limit] }`.
unfoldable pub limit_candidates : ℤ → List SourceCandidate → List SourceCandidate
limit_candidates (pos n) cs = if ltb 0 n && ltb n (length cs) then take n cs else cs
limit_candidates (negsuc n) cs = cs

-- What a cycle has found out before it decides.
pub record Prepared (W : Type 0) : Type 0 where
  pub ledger : W
  pub called : List Text
  pub playlist_id : Text
  pub youtube_blocked : Bool
  pub bookmarks : Slice XBookmark
  pub videos : Slice YouTubeItem
  pub read : StatesRead
  pub blockers : List Text
  pub candidates : List SourceCandidate
  pub new_candidates : List SourceCandidate

module _ {W : Type 0} (ledger : Ledger W) (provider : Provider) (equal_fold : Text → Text → Bool)
    (host : Host) (prompt_version model : Text) (cfg : Config) (a : Answers) where
  abbrev pub settings : TranscriptSettings
  settings = record {
    owner_id = cfg.owner_id;
    monthly_limit = cfg.supadata_monthly_request_limit;
    test_video_id = cfg.youtube_transcript_test_video_id;
    prompt_version = prompt_version;
    model = model;
  }

  -- The transcripts of a slice of videos, unless the fetch or the lookup of states failed.
  abbrev pub transcribe : Bool → States → Slice YouTubeItem → W → W × Slice YouTubeItem × List Text
  transcribe wanted states none w = (w, none, [])
  transcribe wanted states (some videos) w =
      let (w', videos', called) =
        fetch_transcripts ledger provider equal_fold settings states videos w in
      if wanted then (w', some videos', called) else (w, some videos, [])

  -- From the start down to `filterNewSourceCandidates`.
  unfoldable pub prepare : W → Prepared W
  unfolding owner_youtube_playlist_id fetch_transcripts limit_candidates
  prepare w =
      let playlist_id = owner_youtube_playlist_id cfg a.connections in
      let missing = is_nil playlist_id in
      let fetched = if missing then none else a.playlist_items in
      let fetch_error =
        if missing
        then some (
            codes
              "public YouTube playlist is missing. Add a public playlist during onboarding because Watch Later is blocked by the YouTube API.")
        else a.playlist_error in
      let read = read_source_material_states a.store a.cache (
        source_material_keys_from_fetched (items a.x_items) (items fetched) prompt_version model) in
      let wanted = not (is_some fetch_error) && is_nil read.warnings in
      let (w', videos, called) = transcribe wanted read.states fetched w in
      let candidates =
        limit_candidates cfg.x_bookmark_process_limit (candidates_from_bookmarks (items a.x_items))
        ++ candidates_from_videos (items videos) in
      record {
        ledger = w';
        called = called;
        playlist_id = playlist_id;
        youtube_blocked = is_some fetch_error;
        bookmarks = a.x_items;
        videos = videos;
        read = read;
        blockers =
            error_texts a.x_error
            ++ (error_texts fetch_error ++ (read.warnings ++ latest_error_texts a.latest_error));
        candidates = candidates;
        new_candidates =
            (filter_new_source_candidates host prompt_version candidates read.states model).0;
      }
