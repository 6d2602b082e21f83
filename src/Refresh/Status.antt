-- ===== src/Refresh/Status.antt =====
-- The operations on `s.refresh`, each one critical section under `refreshMu`. What a section
-- hands to `writeRefreshStatusBestEffort` is its second result.
use second_brain.Prelude.{
  Bool, Option, Text, [], codes, false, if◌then◌else◌, is_nil, none, not, some, true, ℕ, ◌++◌, ◌-◌,
  ◌/◌, ◌==◌,
}
use second_brain.Models.{RefreshStatus, Time}

abbrev pub is_running : RefreshStatus → Bool
is_running s = s.status == codes "running"

-- `int64(time.Since(startedAt).Seconds())`.
abbrev pub seconds_since : Time → Time → ℕ
seconds_since start now = (now - start) / 1_000_000_000

-- The status of a new refresh; `digits` are those of the clock in nanoseconds.
abbrev pub starting_status : Text → Time → RefreshStatus
starting_status digits now = record {
  id = codes "refresh-" ++ digits;
  status = codes "running";
  started_at = now;
  finished_at = none;
  error = [];
  phase = codes "starting";
  message = codes "Starting knowledge refresh.";
  elapsed_seconds = 0;
}

-- The state, what is published, and whether a goroutine is started.
unfoldable pub start_refresh :
    Text → Time → RefreshStatus → RefreshStatus × Option RefreshStatus × Bool
start_refresh digits now s =
    if is_running s
    then (s, none, false)
    else (starting_status digits now, some (starting_status digits now), true)

-- The end of the goroutine: `Run` failed with an error, or it did not.
unfoldable pub finish_refresh : Option Text → Time → RefreshStatus → RefreshStatus
finish_refresh (some e) now s = record s {
  status = codes "failed";
  finished_at = some now;
  error = e;
  phase = codes "failed";
  message = codes "Refresh failed before the inbox could be updated.";
}
finish_refresh none now s = record s {
  status = codes "completed";
  finished_at = some now;
  error = [];
  phase = codes "completed";
  message = codes "Refresh completed. The latest source-grounded insights are ready.";
}

unfoldable pub set_refresh_stage : Text → Text → Time → RefreshStatus → RefreshStatus
set_refresh_stage phase message now s = if not (is_running s) then s else record s {
  phase = phase;
  message = message;
  elapsed_seconds = seconds_since s.started_at now;
}

unfoldable pub idle_status : Time → RefreshStatus
idle_status now = record {
  id = codes "idle";
  status = codes "idle";
  started_at = now;
  finished_at = none;
  error = [];
  phase = codes "idle";
  message = codes "No refresh is currently running.";
  elapsed_seconds = 0;
}

unfoldable pub refresh_status : Time → RefreshStatus → RefreshStatus
refresh_status now s =
    if is_nil s.id
    then idle_status now
    else record s { elapsed_seconds = seconds_since s.started_at now }

-- The zero value of `s.refresh` in a new service.
abbrev pub new_status : RefreshStatus
new_status = record {
  id = [];
  status = [];
  started_at = 0;
  finished_at = none;
  error = [];
  phase = [];
  message = [];
  elapsed_seconds = 0;
}
