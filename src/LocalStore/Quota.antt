-- ===== src/LocalStore/Quota.antt =====
-- The monthly limit on claims.
use second_brain.Prelude.{pos, ℕ, ◌≡◌, ◌≤◌}
use second_brain.Models.{Time}
use second_brain.LocalStore.Files.{Files}
use second_brain.LocalStore.Requests.{Requests, requests_since}
use second_brain.LocalStore.Calls.{Call, claim, complete, feedback, save}

abbrev WithinQuota : Time → ℕ → Requests → Type 0
WithinQuota start limit m = requests_since start m ≤ limit

-- The claims of a sequence are made in one month and with one limit.
abbrev pub IsInMonth : Time → ℕ → Call → Type 0
IsInMonth start limit (claim io start' now owner video limit') =
    (start' ≡ start) × (limit' ≡ pos limit)
IsInMonth start limit (complete io now owner video status detail) = Unit
IsInMonth start limit (save io result) = Unit
IsInMonth start limit (feedback io event) = Unit
