-- ===== src/OAuth/States.antt =====
-- `xOAuthStates`: put in by `BeginXOAuth`, taken out once by `CompleteXOAuth`, and dropped when
-- they are older than the lifetime. Each operation is one critical section under `xOAuthMu`.
use second_brain.Prelude.{
  Bool, Dict, Option, Outcome, Text, [], delete, err, false, has_key, if◌then◌else◌, insert, is_nil,
  lookup, ltb, none, ok, some, trim, ℕ, ◌-◌, ◌||◌, ◌∷◌,
}
use second_brain.Models.{Time}

pub record XoAuthState : Type 0 where
  pub verifier : Text
  pub created_at : Time

abbrev pub Pending : Type 0
Pending = Dict XoAuthState

-- Ten minutes.
abbrev pub x_oauth_state_ttl : ℕ
x_oauth_state_ttl = 600_000_000_000

-- `now.Sub(stored.CreatedAt) > xOAuthStateTTL`.
abbrev pub is_expired : Time → XoAuthState → Bool
is_expired now stored = ltb x_oauth_state_ttl (now - stored.created_at)

unfoldable pub prune_expired_x_oauth_states : Time → Pending → Pending
prune_expired_x_oauth_states now [] = []
prune_expired_x_oauth_states now ((k, s) ∷ m) =
    let rest = prune_expired_x_oauth_states now m in
    if is_expired now s then rest else (k, s) ∷ rest

-- The critical section of `BeginXOAuth`; `state` and `verifier` are random.
unfoldable pub begin_x_oauth : Time → Text → Text → Pending → Pending
begin_x_oauth now state verifier pending =
    insert state (record { verifier = verifier; created_at = now })
      (prune_expired_x_oauth_states now pending)

unfoldable pub consume_x_oauth_state : Time → Text → Pending → Pending × Option XoAuthState
consume_x_oauth_state now state pending =
    let left = prune_expired_x_oauth_states now pending in
    elim (lookup state left) [
      | none ↦ (left, none)
      | some stored ↦ (delete state left, some stored)
    ]

unfoldable pub has_x_oauth_state : Time → Text → Pending → Pending × Bool
has_x_oauth_state now state pending =
    let left = prune_expired_x_oauth_states now pending in
    if is_nil (trim state) then (pending, false) else (left, has_key (trim state) left)

-- The head of `CompleteXOAuth`, up to the exchange: the verifier, or why there is none.
pub data CallbackError : Type 0 where
  state_and_code_required : CallbackError
  state_missing_or_expired : CallbackError

unfoldable pub accept_callback : Time → Text → Text → Pending → Pending × Outcome CallbackError Text
accept_callback now state code pending =
    let (left, stored) = consume_x_oauth_state now (trim state) pending in
    if is_nil (trim state) || is_nil (trim code)
    then (pending, err state_and_code_required)
    else elim stored [
      | none ↦ (left, err state_missing_or_expired)
      | some s ↦ (left, ok s.verifier)
    ]
