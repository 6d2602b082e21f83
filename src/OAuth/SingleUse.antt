-- ===== src/OAuth/SingleUse.antt =====
-- What a sequence of calls can do with one pending authorization.
use second_brain.Prelude.{
  ==_refl, All, List, Text, [], arith, false, lookup, lookup-delete, lookup-insert, none, ok, refl,
  some, trim, ◌==◌, ◌∷◌, ◌≡◌, ◌≢◌,
}
use second_brain.Models.{Time}
use second_brain.OAuth.States.{
  Pending, XoAuthState, accept_callback, begin_x_oauth, consume_x_oauth_state, has_x_oauth_state,
  is_expired, prune_expired_x_oauth_states,
}

pub data Call : Type 0 where
  begin : Time → Text → Text → Call
  callback : Time → Text → Text → Call
  status : Time → Text → Call

unfoldable pub perform : Call → Pending → Pending
perform (begin now state verifier) p = begin_x_oauth now state verifier p
perform (callback now state code) p = (accept_callback now state code p).0
perform (status now state) p = (has_x_oauth_state now state p).0

abbrev pub perform_all : List Call → Pending → Pending
perform_all [] p = p
perform_all (c ∷ cs) p = perform_all cs (perform c p)

-- The call does not put `state` in.
abbrev pub LeavesOut : Text → Call → Type 0
LeavesOut state (begin now other verifier) = (other == state) ≡ false
LeavesOut state (callback now other code) = Unit
LeavesOut state (status now other) = Unit

lookup-prune_none :
    (now : Time) (state : Text) (p : Pending)
    → lookup state p ≡ none
    → lookup state (prune_expired_x_oauth_states now p) ≡ none
unfolding prune_expired_x_oauth_states lookup
lookup-prune_none now state [] h = refl
lookup-prune_none now state ((k, s) ∷ p) h = ground (arith, lookup-prune_none now state p)

pub lookup-prune_some :
    (now : Time) (state : Text) (s : XoAuthState) (p : Pending)
    → lookup state (prune_expired_x_oauth_states now p) ≡ some s
    → is_expired now s ≡ false
unfolding prune_expired_x_oauth_states lookup
lookup-prune_some now state s [] h = absurd (ground arith)
lookup-prune_some now state s ((k, w) ∷ p) h = ground (arith, lookup-prune_some now state s p)

pub lookup-prune_fresh :
    (now : Time) (state : Text) (s : XoAuthState) (p : Pending)
    → lookup state p ≡ some s
    → is_expired now s ≡ false
    → lookup state (prune_expired_x_oauth_states now p) ≡ some s
unfolding prune_expired_x_oauth_states lookup
lookup-prune_fresh now state s [] h f = absurd (ground arith)
lookup-prune_fresh now state s ((k, w) ∷ p) h f = ground (arith, lookup-prune_fresh now state s p)

accept_callback-none :
    (now : Time) (state other code : Text) (p : Pending)
    → lookup state p ≡ none
    → lookup state (accept_callback now other code p).0 ≡ none
unfolding accept_callback consume_x_oauth_state
accept_callback-none now state other code p h =
    let left = prune_expired_x_oauth_states now p in
    ground (arith, lookup-prune_none now state p h, lookup-delete (trim other) state left)

perform-none :
    (state : Text) (c : Call) (p : Pending)
    → LeavesOut state c
    → lookup state p ≡ none
    → lookup state (perform c p) ≡ none
unfolding perform
perform-none state (begin now other verifier) p out h =
    unfold begin_x_oauth in
    ground (
      arith,
      lookup-prune_none now state p h,
      lookup-insert other state (record { verifier = verifier; created_at = now })
          (prune_expired_x_oauth_states now p),
    )
perform-none state (callback now other code) p out h = accept_callback-none now state other code p h
perform-none state (status now other) p out h =
    unfold has_x_oauth_state in ground (arith, lookup-prune_none now state p h)

perform_all-none :
    (state : Text) (cs : List Call) (p : Pending)
    → All (LeavesOut state) cs
    → lookup state p ≡ none
    → lookup state (perform_all cs p) ≡ none
perform_all-none state [] p out h = h
perform_all-none state (c ∷ cs) p (o, out) h =
    perform_all-none state cs (perform c p) out (perform-none state c p o h)

accept_callback-used :
    (now : Time) (state code verifier : Text) (p : Pending)
    → (accept_callback now state code p).1 ≡ ok verifier
    → lookup (trim state) (accept_callback now state code p).0 ≡ none
unfolding accept_callback consume_x_oauth_state
accept_callback-used now state code verifier p h = ground (
  arith,
  ==_refl (trim state),
  lookup-delete (trim state) (trim state) (prune_expired_x_oauth_states now p),
)

accept_callback-unknown :
    (now : Time) (state code verifier : Text) (p : Pending)
    → lookup (trim state) p ≡ none
    → (accept_callback now state code p).1 ≢ ok verifier
unfolding accept_callback consume_x_oauth_state
accept_callback-unknown now state code verifier p h e =
    ground (arith, lookup-prune_none now (trim state) p h)

-- A state that a callback used is not accepted again after calls that do not put it in anew.
pub accept_callback_once :
    (now later : Time) (state code verifier state' code' verifier' : Text) (cs : List Call)
    (p : Pending)
    → (accept_callback now state code p).1 ≡ ok verifier
    → All (LeavesOut (trim state)) cs
    → trim state' ≡ trim state
    → (accept_callback later state' code' (perform_all cs (accept_callback now state code p).0)).1
      ≢ ok verifier'
accept_callback_once now later state code verifier state' code' verifier' cs p h out same =
    accept_callback-unknown later state' code' verifier' _ (
      rw same
        (perform_all-none (trim state) cs _ out (accept_callback-used now state code verifier p h)))
