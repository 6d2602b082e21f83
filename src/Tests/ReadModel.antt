-- ===== src/Tests/ReadModel.antt =====
-- The read model at concrete inputs: two bookmarks, and the publication of a second run.
use native.Mathlib.Decide.{ℕ_discrete}
use second_brain.Prelude.{
  Option, Outcome, Text, [], arith, codes, err, none, ok, pos, refl, some, true, trim, ◌∷◌, ◌≡◌,
  ◌≢◌, ◌==◌, lookup, Lacks, lookup-insert_self, insert, Dict,
}
use second_brain.Models.{Result, Time}
use second_brain.ReadModel.State.{AppState, persisted_state}
use second_brain.ReadModel.Redis.{Redis, broken, done}
use second_brain.ReadModel.Keys.{manifest_key, owner_of}
use second_brain.ReadModel.Publish.{Answers, Codec, publish_app_state}
use second_brain.ReadModel.Reads.{
  read_app_state, read_digests, read_insight_graph, read_refresh_status,
}
use second_brain.ReadModel.Isolation.{publish_app_state-isolated}
use second_brain.ReadModel.Manifest.{CodecLaws, quiet, served_state}
use second_brain.ReadModel.Switch.{current_run}
use second_brain.ReadModel.Atomic.{Switches, publish_app_state-Switches}
use second_brain.Tests.Blank.{blank_app_state, blank_result, blank_x_bookmark}

abbrev owner : Text
owner = b'o' ∷ []

-- A time is written as its number.
abbrev of_number : Text → Option Time
of_number [] = none
of_number (t ∷ ts) = some t

abbrev latest : Result
latest = record blank_result {
  x_bookmarks = some (
      record blank_x_bookmark { id = b'1' ∷ []; created_at = 100 ∷ [] }
      ∷ record blank_x_bookmark { id = b'2' ∷ []; created_at = 200 ∷ [] }
      ∷ []);
}

abbrev state : AppState
state = record blank_app_state {
  manifest = record (blank_app_state.manifest) { run_id = b'2' ∷ b' ' ∷ []; generated_at = 300 };
  latest = some latest;
}

AppState-discrete : Discrete AppState
AppState-discrete = hlevel ℕ_discrete

-- A codec that can write what JSON keeps of `state`, and no other state.
abbrev encode_known : AppState → Outcome Text Text
encode_known s = elim (AppState-discrete (persisted_state s) (persisted_state state)) [
  | yes e ↦ ok (b'{' ∷ [])
  | no n ↦ err []
]

abbrev codec : Codec
codec = record {
  encode_latest = λ r. ok [];
  decode_latest = λ raw. ok blank_result;
  encode_state = encode_known;
  decode_state = λ raw. ok (persisted_state state);
  encode_digests = λ ds. ok [];
  decode_digests = λ raw. ok (some []);
  encode_graph = λ g. ok [];
  decode_graph = λ raw. ok (state.graph);
  encode_ask_context = λ c. ok [];
  encode_insights = λ xs. ok [];
  encode_newsletter = λ d. ok [];
  encode_bookmarks = λ xs. ok [];
  encode_videos = λ xs. ok [];
  encode_material = λ m. ok [];
  encode_status = λ s. ok [];
  decode_status = λ raw. ok (state.refresh_status);
  format_time = λ t. t ∷ [];
  parse_time = of_number;
}

laws : CodecLaws codec
laws = record {
  state_back = λ s raw h. elim (AppState-discrete (persisted_state s) (persisted_state state)) [
    | yes e ↦ cc
    | no n ↦ ground arith
  ];
  time_back = λ t. refl;
}

-- The manifest names the run `1`.
abbrev fields : Dict Text
fields = (codes "current_run_id", b'1' ∷ []) ∷ []

abbrev before : Redis
before = record { strings = []; hashes = insert (manifest_key owner) fields [] }

-- The manifest is written, but the answer is lost.
abbrev answers : Answers
answers = record { payloads = done; materials = done; manifest = broken (true ∷ []) (b'e' ∷ []) }

first_run : current_run owner before ≡ b'1' ∷ []
unfolding lookup codes ◌==◌
first_run = rw (lookup-insert_self (manifest_key owner) fields []) refl

other_run : current_run owner before ≢ trim state.manifest.run_id
unfolding trim
other_run = ground (arith, first_run)

publish_app_state-Switches_example :
    Switches
      (read_app_state codec quiet owner before before)
      (ok (served_state state))
      (read_app_state codec quiet owner
        (publish_app_state codec answers owner state before).0
        (publish_app_state codec answers owner state before).0)
      (publish_app_state codec answers owner state before).1
publish_app_state-Switches_example =
    publish_app_state-Switches codec laws answers owner state before other_run

no_colon : Lacks b':' (owner_of owner)
unfolding trim
no_colon = ground arith

no_colon' : Lacks b':' (owner_of (b'p' ∷ []))
unfolding trim
no_colon' = ground arith

distinct : owner_of owner ≢ owner_of (b'p' ∷ [])
unfolding trim
distinct = ground arith

publish_app_state-isolated_example :
    let after = (publish_app_state codec answers owner state before).0 in
    (read_app_state codec quiet (b'p' ∷ []) after after
      ≡ read_app_state codec quiet (b'p' ∷ []) before before)
    × (read_digests codec quiet (b'p' ∷ []) (pos 5) after after
        ≡ read_digests codec quiet (b'p' ∷ []) (pos 5) before before)
    × (read_insight_graph codec quiet (b'p' ∷ []) (pos 5) after after
        ≡ read_insight_graph codec quiet (b'p' ∷ []) (pos 5) before before)
    × (read_refresh_status codec quiet (b'p' ∷ []) after
        ≡ read_refresh_status codec quiet (b'p' ∷ []) before)
publish_app_state-isolated_example =
    publish_app_state-isolated codec answers owner (b'p' ∷ []) state before quiet (pos 5) no_colon
      no_colon' distinct
