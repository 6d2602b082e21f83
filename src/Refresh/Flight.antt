-- ===== src/Refresh/Flight.antt =====
-- The steps of a service: callers start refreshes, the goroutines that run report their stage and
-- end. However these interleave, no two refreshes run at once.
use second_brain.Prelude.{
  ==_refl, Option, Text, arith, codes, false, if◌then◌else◌, inl, inr, is_nil, is_some, none, refl,
  some, true, ℕ, ◌+◌, ◌-◌, ◌<◌, ◌==◌, ◌≡◌, ◌⊎◌,
}
use second_brain.Models.{RefreshStatus, Time}
use second_brain.Refresh.Status.{
  finish_refresh, is_running, new_status, set_refresh_stage, start_refresh,
}

pub record Service : Type 0 where
  pub refresh : RefreshStatus
  pub goroutines : ℕ

abbrev pub new_service : Service
new_service = record { refresh = new_status; goroutines = 0 }

-- One call of `StartRefresh`.
unfoldable pub call_start : Text → Time → Service → Service
call_start digits now s =
    let (refresh, published, spawned) = start_refresh digits now s.refresh in
    record { refresh = refresh; goroutines = if spawned then s.goroutines + 1 else s.goroutines }

pub data Step : Service → Service → Type 0 where
  start : (digits : Text) (now : Time) (s : Service) → Step s (call_start digits now s)
  stage :
      (phase message : Text) (now : Time) (s : Service)
      → Step s (record s { refresh = set_refresh_stage phase message now s.refresh })
  finish :
      (outcome : Option Text) (now : Time) (s : Service)
      → 0 < s.goroutines
      → Step s
          (record { refresh = finish_refresh outcome now s.refresh; goroutines = s.goroutines - 1 })

pub data Reach (s : Service) : Service → Type 0 where
  here : Reach s s
  next : {t u : Service} → Reach s t → Step t u → Reach s u

-- The one goroutine and the status `running` go together, and a refresh is finished exactly when
-- it has stopped running.
pub record IsSingle (s : Service) : Type 0 where
  pub running : is_running s.refresh ≡ true → s.goroutines ≡ 1
  pub stopped : is_running s.refresh ≡ false → s.goroutines ≡ 0
  pub unfinished : is_running s.refresh ≡ true → s.refresh.finished_at ≡ none
  pub finished :
      is_running s.refresh ≡ false
      → is_nil s.refresh.id ≡ false
      → is_some s.refresh.finished_at ≡ true

status_tests :
    ((codes "running" == codes "running") ≡ true)
    × ((codes "failed" == codes "running") ≡ false)
    × ((codes "completed" == codes "running") ≡ false)
status_tests = (==_refl _, unfold codes ◌==◌ in refl, unfold codes ◌==◌ in refl)

Step-IsSingle : {s t : Service} → Step s t → IsSingle s → IsSingle t
unfolding call_start start_refresh set_refresh_stage finish_refresh
Step-IsSingle (start digits now s) h = ground (arith, status_tests)
Step-IsSingle (stage phase message now s) h = ground (arith, status_tests)
Step-IsSingle (finish (some e) now s busy) h = ground (arith, status_tests)
Step-IsSingle (finish none now s busy) h = ground (arith, status_tests)

new_service-IsSingle : IsSingle new_service
new_service-IsSingle = record {
  running = λ e. absurd (unfold codes ◌==◌ in cc);
  stopped = λ e. refl;
  unfinished = λ e. refl;
  finished = λ e n. cc;
}

-- In every state that a new service reaches, one refresh runs exactly while the status says so,
-- and otherwise none; a running refresh has no end, and one that has stopped has an end.
pub Reach-IsSingle : {s : Service} → Reach new_service s → IsSingle s
Reach-IsSingle here = new_service-IsSingle
Reach-IsSingle (next r step) = Step-IsSingle step (Reach-IsSingle r)

-- While one refresh runs, no step changes its identity or its start, and it stays the only one
-- until it is finished.
pub Step-keeps_refresh :
    {s t : Service}
    → Step s t
    → IsSingle s
    → is_running s.refresh ≡ true
    → (t.refresh.id ≡ s.refresh.id)
      × (t.refresh.started_at ≡ s.refresh.started_at)
      × ((t.goroutines ≡ 1) ⊎ (is_some t.refresh.finished_at ≡ true))
unfolding call_start start_refresh set_refresh_stage finish_refresh
Step-keeps_refresh (start digits now s) h r = (ground arith, ground arith, inl (ground arith))
Step-keeps_refresh (stage phase message now s) h r =
    (ground arith, ground arith, inl (ground arith))
Step-keeps_refresh (finish (some e) now s busy) h r = (refl, refl, inr refl)
Step-keeps_refresh (finish none now s busy) h r = (refl, refl, inr refl)
