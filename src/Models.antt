-- ===== src/Models.antt =====
-- backend/internal/knowledge/models.go and source_material.go: the data that the components share.
-- A `[]T` of `Result` and of the read model is a `Slice`, since the code tells `nil` from an
-- empty one there; elsewhere it is a list. A `time.Time` counts nanoseconds from Go's zero time, a
-- `float64` is its bit pattern, and `*T` is an option.
mod Base
mod Sources
mod Knowledge
mod Digest
mod State
mod Settings
mod Persisted
unfoldable pub use Base.*
unfoldable pub use Sources.*
unfoldable pub use Knowledge.*
unfoldable pub use Digest.*
unfoldable pub use State.*
unfoldable pub use Settings.*
unfoldable pub use Persisted.*
