-- ===== src/Tests/Refresh.antt =====
-- A refresh that is started once and asked for a second time.
use second_brain.Prelude.{[], codes, is_some, refl, true, ◌==◌, ◌∷◌, ◌≡◌, ◌⊎◌}
use second_brain.Models.{}
use second_brain.Refresh.Status.{is_running, start_refresh}
use second_brain.Refresh.Flight.{
  IsSingle, Reach, Reach-IsSingle, Service, Step-keeps_refresh, call_start, here, new_service, next,
  start,
}

abbrev once : Service
once = call_start (b'1' ∷ []) 10 new_service

abbrev twice : Service
twice = call_start (b'2' ∷ []) 20 once

twice_reached : Reach new_service twice
twice_reached = next (next here (start (b'1' ∷ []) 10 new_service)) (start (b'2' ∷ []) 20 once)

Reach-IsSingle_example : IsSingle twice
Reach-IsSingle_example = Reach-IsSingle twice_reached

once_running : is_running once.refresh ≡ true
unfolding call_start start_refresh ◌==◌ codes
once_running = refl

once-IsSingle : IsSingle once
once-IsSingle = Reach-IsSingle (next here (start (b'1' ∷ []) 10 new_service))

Step-keeps_refresh_example :
    (twice.refresh.id ≡ once.refresh.id)
    × (twice.refresh.started_at ≡ once.refresh.started_at)
    × ((twice.goroutines ≡ 1) ⊎ (is_some twice.refresh.finished_at ≡ true))
Step-keeps_refresh_example =
    Step-keeps_refresh (start (b'2' ∷ []) 20 once) once-IsSingle once_running
