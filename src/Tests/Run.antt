-- ===== src/Tests/Run.antt =====
-- Cycles at concrete inputs: on the local store, with one bookmark, after one saved run.
use mathlib.Core.Option
use second_brain.Prelude.{
  All, List, Text, [], codes, contains, err, false, if◌then◌else◌, is_nil, lookup, none, ok, refl,
  some, trim, true, ℕ, ◌==◌, ◌||◌, ◌∷◌, ◌≡◌, pos,
}
use second_brain.Models.{Config, Result, Summary, YouTubeItem, XBookmark, items}
use second_brain.Storage.Upload.{Host}
use second_brain.Material.Cache.{
  no_cache, read_missing, read_source_material_states, missing_keys, insert_all,
}
use second_brain.Material.Selection.{
  States, add_keys, source_material_keys_from_fetched, summary_identity,
}
use second_brain.Material.Union.{IsDistinct, find_id}
use second_brain.Run.Output.{processed_sources_from_result, source_of_summary}
use second_brain.Run.Sources.{processed_sources_from_result_lem, source_identity}
use second_brain.Run.Transcripts.{Ledger, Provider, TranscriptSettings}
use second_brain.Run.FetchOnce.{ClaimsOnce, refreshes, refreshes_once}
use second_brain.Run.LocalLedger.{Answered, Counted, local_ledger, local_ledger-ClaimsOnce}
use second_brain.Run.Validation.{Formats}
use second_brain.Run.Prepare.{Answers, prepare}
use second_brain.Run.Cycle.{result_has_content, run_cycle}
use second_brain.Run.Guarded.{IsLast, run_cycle-unpaid}
use second_brain.Run.Outage.{run_cycle-keeps_inbox}
use second_brain.Run.Saves.{IfSaved}
use second_brain.Run.Forgotten.{ReadsNoDigest, run_cycle-forgets_digest}
use second_brain.Run.Preserved.{SavesLatest, run_cycle-SavesLatest}
use second_brain.Tests.Blank.{blank_result, blank_summary, blank_x_bookmark, blank_youtube_item}
use second_brain.Tests.LocalStore.{json, laws, path, quiet}
use second_brain.Tests.Settings.{blank_config}

abbrev owner : Text
owner = b'o' ∷ []

abbrev answered : ℕ → Answered
answered n = record { io = quiet; month_start = 100; now = 150 }

abbrev ledger : Ledger (Counted json path answered)
ledger = local_ledger json path answered

abbrev transcript : YouTubeItem
transcript = record blank_youtube_item { transcript_status = codes "available" }

abbrev provider : Provider
provider = record {
  configured = true;
  fetch = λ v. transcript;
  extract = λ t. [];
  estimate = λ t n. [];
}

abbrev settings : TranscriptSettings
settings = record {
  owner_id = owner;
  monthly_limit = pos 10;
  test_video_id = [];
  prompt_version = b'p' ∷ [];
  model = b'm' ∷ [];
}

abbrev video : YouTubeItem
video = record blank_youtube_item { video_id = b'v' ∷ [] }

-- The same video in two refreshes.
abbrev twice : List (States × List YouTubeItem)
twice = ([], video ∷ []) ∷ ([], video ∷ []) ∷ []

abbrev once : ClaimsOnce ledger owner
once = local_ledger-ClaimsOnce json path answered laws owner

refreshes_once_example :
    let called = (refreshes ledger provider (λ s t. s == t) settings twice (0, [])).1 in
    IsDistinct trim called × ((v : Text) → once.Held v (0, []) → find_id trim v called ≡ none)
refreshes_once_example = refreshes_once ledger provider (λ s t. s == t) settings once twice (0, [])

abbrev host : Host
host = record { sha256_hex = λ t. t; absolute = λ t. ok t; to_lower = λ t. t; quote = λ t. t }

abbrev formats : Formats
formats = record { digits = λ n. n ∷ []; is_positive = λ f. false }

abbrev cfg : Config
cfg = record blank_config { owner_id = owner }

abbrev old : Summary
old = record blank_summary { id = b'1' ∷ []; source = b'x' ∷ [] }

abbrev latest : Result
latest = record blank_result { summaries = some (old ∷ []) }

abbrev bookmark : XBookmark
bookmark = record blank_x_bookmark { id = b'2' ∷ [] }

-- No playlist is set, and the lookup of material states fails.
abbrev down : Answers
down = record {
  now = 100;
  one_cli_status = codes "ready";
  x_items = some (bookmark ∷ []);
  x_error = none;
  connections = ok [];
  playlist_items = none;
  playlist_error = none;
  store = λ keys. err (b'e' ∷ []);
  cache = no_cache;
  latest = some latest;
  latest_error = none;
  process = λ cs. ([], []);
  save_error = none;
  enrich = λ ps. ps;
  build_theme_clusters = λ ps. none;
  build_insight_clusters = λ ps. none;
  rank_insights = λ xs cs. xs;
  build_source_connections = λ ps. none;
}

-- X fails, and the lookup of the latest run warns.
abbrev blocked : Answers
blocked = record down { x_items = none; x_error = some (b'e' ∷ []); latest_error = some [] }

-- X answers, and so does the store.
abbrev up : Answers
up = record down { store = λ keys. ok [] }

run_cycle-SavesLatest_example :
    let p = prepare ledger provider (λ s t. s == t) host (b'p' ∷ []) (b'm' ∷ []) cfg up (0, []) in
    let out =
      run_cycle ledger provider
        (λ s t. s == t)
        host
        formats
        (b'p' ∷ [])
        (b'm' ∷ [])
        cfg
        up
        (0, []) in
    SavesLatest latest (up.enrich (up.process p.new_candidates).0) out.1 out.2
run_cycle-SavesLatest_example =
    run_cycle-SavesLatest ledger provider (λ s t. s == t) host formats (b'p' ∷ []) (b'm' ∷ []) cfg
      up (0, []) latest refl

warned :
    is_nil
      (prepare ledger provider
        (λ s t. s == t)
        host
        (b'p' ∷ [])
        (b'm' ∷ [])
        cfg
        down
        (0, [])).read.warnings
    ≡ false
unfolding prepare read_source_material_states read_missing source_material_keys_from_fetched
    add_keys missing_keys insert_all contains trim lookup codes ◌==◌
warned = refl

content : result_has_content (some latest) ≡ true
unfolding result_has_content
content = refl

run_cycle-unpaid_example :
    let out =
      run_cycle ledger provider
        (λ s t. s == t)
        host
        formats
        (b'p' ∷ [])
        (b'm' ∷ [])
        cfg
        down
        (0, []) in
    (out.0 ≡ (0, [])) × (out.1 ≡ []) × IsLast (some latest) out.2
run_cycle-unpaid_example =
    run_cycle-unpaid ledger provider (λ s t. s == t) host formats (b'p' ∷ []) (b'm' ∷ []) cfg down
      (0, []) warned

run_cycle-keeps_inbox_example :
    let out =
      run_cycle ledger provider
        (λ s t. s == t)
        host
        formats
        (b'p' ∷ [])
        (b'm' ∷ [])
        cfg
        blocked
        (0, []) in
    (out.0 ≡ (0, [])) × (out.1 ≡ []) × (out.2.result ≡ latest) × (out.2.error ≡ none)
run_cycle-keeps_inbox_example =
    run_cycle-keeps_inbox ledger provider (λ s t. s == t) host formats (b'p' ∷ []) (b'm' ∷ []) cfg
      blocked (0, []) latest refl content (refl, refl) refl

processed_sources_from_result_lem_example :
    IsDistinct source_identity (processed_sources_from_result (some latest) [])
    × ((k : Text)
        → find_id source_identity k (processed_sources_from_result (some latest) []) ≡ (
            if k == codes ":" || contains k []
            then none
            else Option.map
                (source_of_summary latest)
                (find_id summary_identity k (items latest.summaries))))
processed_sources_from_result_lem_example = processed_sources_from_result_lem latest []

run_cycle-forgets_digest_example :
    All
      (IfSaved (ReadsNoDigest json path))
      (run_cycle ledger provider
        (λ s t. s == t)
        host
        formats
        (b'p' ∷ [])
        (b'm' ∷ [])
        cfg
        up
        (0, [])).1
run_cycle-forgets_digest_example =
    run_cycle-forgets_digest ledger provider (λ s t. s == t) host formats (b'p' ∷ []) (b'm' ∷ [])
      cfg up (0, []) json path laws
