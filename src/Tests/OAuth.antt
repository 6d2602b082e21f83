-- ===== src/Tests/OAuth.antt =====
-- Pending authorizations at concrete inputs.
use second_brain.Prelude.{
  List, Within, Text, [], arith, insert, lookup, ok, refl, trim, ◌-◌, ◌==◌, ◌∷◌, ◌≡◌, ◌≢◌, ◌≤◌,
}
use second_brain.Models.{Time}
use second_brain.OAuth.States.{
  Pending, accept_callback, begin_x_oauth, consume_x_oauth_state, prune_expired_x_oauth_states,
  x_oauth_state_ttl,
}
use second_brain.OAuth.SingleUse.{
  accept_callback_once, begin, callback, status, Call, perform, perform_all,
}
use second_brain.OAuth.Histories.{accept_callback-begun, begin-accept_callback}

abbrev state : Text
state = b's' ∷ []

abbrev code : Text
code = b'c' ∷ []

abbrev verifier : Text
verifier = b'v' ∷ []

abbrev pending : Pending
pending = begin_x_oauth 10 state verifier []

accepted : (accept_callback 20 state code pending).1 ≡ ok verifier
unfolding accept_callback consume_x_oauth_state begin_x_oauth prune_expired_x_oauth_states insert
    lookup trim ◌==◌
accepted = refl

accept_callback_once_example :
    (accept_callback 40
      (b' ' ∷ state)
      code
      (perform_all (begin 30 code verifier ∷ []) (accept_callback 20 state code pending).0)).1
    ≢ ok verifier
accept_callback_once_example =
    accept_callback_once 20 40 state code verifier (b' ' ∷ state) code verifier
      (begin 30 code verifier ∷ []) pending accepted (unfold trim ◌==◌ in refl, tt)
      (unfold trim in refl)

abbrev calls_between : List Call
calls_between = begin 11 code code ∷ status 12 state ∷ callback 13 code code ∷ []

accept_callback-begun_example :
    (begun : Time) × Within (begin begun (trim state) verifier) (begin 10 state verifier ∷ [])
    × (20 - begun ≤ x_oauth_state_ttl)
accept_callback-begun_example =
    accept_callback-begun 20 state code verifier (begin 10 state verifier ∷ [])
      (unfold perform in accepted)

begin-accept_callback_example :
    (accept_callback 20 state code
      (perform_all calls_between (begin_x_oauth 10 (trim state) verifier []))).1
    ≡ ok verifier
begin-accept_callback_example =
    begin-accept_callback 10 20 state code verifier [] calls_between (unfold trim in refl)
      (unfold trim in refl)
      (
        (unfold trim ◌==◌ in refl, omega arith),
        (omega arith, ((unfold trim ◌==◌ in refl, omega arith), tt)),
      )
      (omega arith)
