-- ===== src/ReadModel/Manifest.antt =====
-- The manifest of the cache reads as it was written.
use second_brain.Prelude.{
  Dict, Option, Text, [], codes, false, if◌then◌else◌, is_nil, lookup, lookup-insert, none, ok,
  refl, some, trim, ◌==◌, ◌∷◌, ◌≡◌, fallback,
}
use second_brain.Models.{Time}
use second_brain.ReadModel.State.{AppState, AppStateManifest, persisted_state}
use second_brain.ReadModel.Redis.{put_fields}
use second_brain.ReadModel.Publish.{Codec, app_state_schema_version, manifest_fields}
use second_brain.ReadModel.Reads.{manifest_of}

-- What `encoding/json` and `time` document of what the cache stores.
pub record CodecLaws (codec : Codec) : Type 0 where
  pub state_back :
      (s : AppState) (raw : Text)
      → codec.encode_state s ≡ ok raw
      → codec.decode_state raw ≡ ok (persisted_state s)
  pub time_back : (t : Time) → codec.parse_time (codec.format_time t) ≡ some t

-- What a reader is served of a state: JSON's image of it, under the manifest of the cache.
abbrev pub served_manifest : AppStateManifest → AppStateManifest
served_manifest m = record m { schema_version = app_state_schema_version; run_id = trim m.run_id }

abbrev pub served_state : AppState → AppState
served_state state = record (persisted_state state) { manifest = served_manifest state.manifest }

abbrev pub quiet : Text → Option Text
quiet k = none

put_fields-lookup :
    (k f v : Text) (fields hash : Dict Text)
    → lookup k (put_fields ((f, v) ∷ fields) hash)
      ≡ (if f == k then some v else lookup k (put_fields fields hash))
unfolding put_fields
put_fields-lookup k f v fields hash = lookup-insert f k v (put_fields fields hash)

pub lookup-nonempty : (k v : Text) (d : Dict Text) → lookup k d ≡ some v → is_nil d ≡ false
unfolding lookup
lookup-nonempty k v [] h = cc
lookup-nonempty k v (e ∷ d) h = refl

module _ (codec : Codec) (run : Text) (m : AppStateManifest) (hash : Dict Text) where
  abbrev pub stored_fields : Dict Text
  stored_fields = put_fields (manifest_fields codec run m) hash

  schema_version_field :
      lookup (codes "schema_version") stored_fields ≡ some app_state_schema_version
  unfolding manifest_fields codes ◌==◌
  schema_version_field = simp put_fields-lookup

  pub run_id_field : lookup (codes "current_run_id") stored_fields ≡ some run
  unfolding manifest_fields codes ◌==◌
  run_id_field = simp put_fields-lookup

  generated_at_field :
      lookup (codes "generated_at") stored_fields ≡ some (codec.format_time m.generated_at)
  unfolding manifest_fields codes ◌==◌
  generated_at_field = simp put_fields-lookup

  published_at_field :
      lookup (codes "published_at") stored_fields ≡ some (codec.format_time m.published_at)
  unfolding manifest_fields codes ◌==◌
  published_at_field = simp put_fields-lookup

  etag_field : lookup (codes "etag") stored_fields ≡ some m.etag
  unfolding manifest_fields codes ◌==◌
  etag_field = simp put_fields-lookup

  graph_status_field : lookup (codes "graph_status") stored_fields ≡ some m.graph_status
  unfolding manifest_fields codes ◌==◌
  graph_status_field = simp put_fields-lookup

  digest_status_field : lookup (codes "digest_status") stored_fields ≡ some m.digest_status
  unfolding manifest_fields codes ◌==◌
  digest_status_field = simp put_fields-lookup

  -- The manifest that is written is the one that is read.
  pub manifest_of-fields :
      CodecLaws codec
      → manifest_of codec quiet stored_fields
        ≡ record m { schema_version = app_state_schema_version; run_id = run }
  unfolding manifest_of
  manifest_of-fields laws =
      simp
        (
          schema_version_field, run_id_field, generated_at_field, published_at_field, etag_field,
          graph_status_field, digest_status_field, laws.time_back,
        )
        (unfold fallback codes in refl)
