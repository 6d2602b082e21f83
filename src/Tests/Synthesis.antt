-- ===== src/Tests/Synthesis.antt =====
-- Candidates with and without a stored synthesis.
use second_brain.Prelude.{List, [], codes, ok, ◌∷◌}
use second_brain.Models.{SourceCandidate, SynthesisRecord}
use second_brain.Storage.Upload.{Host, capture_hash}
use second_brain.Run.Output.{no_artifact}
use second_brain.Run.Process.{Synthesis}
use second_brain.Tests.Blank.{blank_source_candidate, blank_summary}

abbrev host : Host
host = record { sha256_hex = λ t. t; absolute = λ t. ok t; to_lower = λ t. t; quote = λ t. t }

-- Nothing is stored for the first candidate, and a synthesis of any content for the second.
abbrev record_of_two : SynthesisRecord
record_of_two = record {
  source_type = codes "x";
  external_id = b'2' ∷ [];
  capture_hash = b'h' ∷ [];
  prompt_version = b'p' ∷ [];
  model = b'm' ∷ [];
  summary = blank_summary;
  insights = [];
  action_items = [];
  generated_at = 0;
}

abbrev candidates : List SourceCandidate
candidates =
    record blank_source_candidate { source_type = codes "x"; external_id = b'1' ∷ [] }
    ∷ record blank_source_candidate { source_type = codes "x"; external_id = b'2' ∷ [] }
    ∷ []

abbrev synthesis : Synthesis
synthesis = record {
  read_cached = λ keys. ok ((codes "x:2::p:m", record_of_two) ∷ []);
  evidence = λ c hash. no_artifact;
  synthesize = λ c hash. record_of_two;
  artifact = λ c hash r. no_artifact;
}
