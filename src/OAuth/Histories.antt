-- ===== src/OAuth/Histories.antt =====
-- Which authorization a callback gets after a sequence of calls, and that it gets it.
use second_brain.Prelude.{
  Option, if◌then◌else◌, All, List, Option-cases, Bool-cases, Text, [], arith, false, inl, inr,
  insert, is_nil, lookup, delete, ==→≡, Within, at_head, in_tail, subst, ◌||◌, lookup-delete,
  lookup-insert, lookup-insert_self, none, ok, refl, some, trim, ◌-◌, ◌==◌, ◌∷◌, ◌≡◌, ◌≤◌,
}
use second_brain.Models.{Time}
use second_brain.OAuth.States.{
  Pending, XoAuthState, accept_callback, begin_x_oauth, consume_x_oauth_state, has_x_oauth_state,
  is_expired, prune_expired_x_oauth_states, x_oauth_state_ttl,
}
use second_brain.OAuth.SingleUse.{
  Call, begin, callback, status, perform, perform_all, lookup-prune_fresh, lookup-prune_some,
}

-- What a call leaves of the pending map, an earlier one included.
module _ (P : Text × XoAuthState → Type 0) where
  All-prune : (now : Time) (p : Pending) → All P p → All P (prune_expired_x_oauth_states now p)
  unfolding prune_expired_x_oauth_states
  All-prune now [] h = tt
  All-prune now ((k, s) ∷ p) (hs, h) = elim (Bool-cases (is_expired now s)) [
    | inl e ↦ rw e (All-prune now p h)
    | inr e ↦ rw e (hs, All-prune now p h)
  ]

  All-delete : (k : Text) (p : Pending) → All P p → All P (delete k p)
  unfolding delete
  All-delete k [] h = tt
  All-delete k ((j, s) ∷ p) (hs, h) = elim (Bool-cases (j == k)) [
    | inl e ↦ rw e (All-delete k p h)
    | inr e ↦ rw e (hs, All-delete k p h)
  ]

  All-insert :
      (k : Text) (s : XoAuthState) (p : Pending) → P (k, s) → All P p → All P (insert k s p)
  unfolding insert
  All-insert k s [] new h = (new, tt)
  All-insert k s ((j, w) ∷ p) new (hw, h) = elim (Bool-cases (j == k)) [
    | inl e ↦ rw e (new, h)
    | inr e ↦ rw e (hw, All-insert k s p new h)
  ]

  All-lookup : (k : Text) (s : XoAuthState) (p : Pending) → All P p → lookup k p ≡ some s → P (k, s)
  unfolding lookup
  All-lookup k s [] h e = absurd (ground arith)
  All-lookup k s ((j, w) ∷ p) (hw, h) e = elim (Bool-cases (j == k)) [
    | inl b ↦ let same : w ≡ s = ground arith in rw (← ==→≡ j k b, ← same) hw
    | inr b ↦ All-lookup k s p h (ground arith)
  ]

  found-consume :
      (state : Text) (left : Pending) (found : Option XoAuthState)
      → All P left
      → All P (elim found as (λ x. Pending) [ none ↦ left | some s ↦ delete state left ])
  found-consume state left none h = h
  found-consume state left (some s) h = All-delete state left h

  accept_callback-pending :
      (now : Time) (state code : Text) (p : Pending)
      → let left = prune_expired_x_oauth_states now p in
        (accept_callback now state code p).0 ≡ (
          if is_nil (trim state) || is_nil (trim code)
          then p
          else elim (lookup (trim state) left) as (λ x. Pending) [
            | none ↦ left
            | some s ↦ delete (trim state) left
          ])
  unfolding accept_callback consume_x_oauth_state
  accept_callback-pending now state code p = ground arith

  All-accept :
      (now : Time) (state code : Text) (p : Pending)
      → All P p
      → All P (accept_callback now state code p).0
  All-accept now state code p h =
      let left = prune_expired_x_oauth_states now p in
      rw (accept_callback-pending now state code p)
        (elim (Bool-cases (is_nil (trim state) || is_nil (trim code))) [
          | inl e ↦ rw e h
          | inr e ↦
              rw e (found-consume (trim state) left (lookup (trim state) left) (All-prune now p h))
        ])

  All-status :
      (now : Time) (state : Text) (p : Pending) → All P p → All P (has_x_oauth_state now state p).0
  unfolding has_x_oauth_state
  All-status now state p h = elim (Bool-cases (is_nil (trim state))) [
    | inl e ↦ rw e h
    | inr e ↦ rw e (All-prune now p h)
  ]

-- The authorization was begun by a call of the history.
IsBegun : List Call → Text × XoAuthState → Type 0
IsBegun history (k, s) = Within (begin s.created_at k s.verifier) history

perform-IsBegun :
    (history : List Call) (c : Call) (p : Pending)
    → Within c history
    → All (IsBegun history) p
    → All (IsBegun history) (perform c p)
unfolding perform
perform-IsBegun history (begin now state verifier) p w h =
    unfold begin_x_oauth in
    All-insert (IsBegun history) state (record { verifier = verifier; created_at = now })
      (prune_expired_x_oauth_states now p) (unfold IsBegun in w)
      (All-prune (IsBegun history) now p h)
perform-IsBegun history (callback now state code) p w h =
    All-accept (IsBegun history) now state code p h
perform-IsBegun history (status now state) p w h = All-status (IsBegun history) now state p h

perform_all-IsBegun :
    (history cs : List Call) (p : Pending)
    → ((c : Call) → Within c cs → Within c history)
    → All (IsBegun history) p
    → All (IsBegun history) (perform_all cs p)
perform_all-IsBegun history [] p w h = h
perform_all-IsBegun history (c ∷ cs) p w h =
    perform_all-IsBegun history cs (perform c p) (λ d at. w d (in_tail at))
      (perform-IsBegun history c p (w c (at_head refl)) h)

-- After any calls from the start, the verifier that a callback gets is that of one of these calls
-- that began an authorization with the callback's state, at most the lifetime ago.
pub accept_callback-begun :
    (now : Time) (state code verifier : Text) (history : List Call)
    → (accept_callback now state code (perform_all history [])).1 ≡ ok verifier
    → (begun : Time) × Within (begin begun (trim state) verifier) history
      × (now - begun ≤ x_oauth_state_ttl)
accept_callback-begun now state code verifier history h =
    let p = perform_all history [] in
    let left = prune_expired_x_oauth_states now p in
    let begun =
      All-prune (IsBegun history) now p (perform_all-IsBegun history history [] (λ c w. w) tt) in
    elim (Option-cases (lookup (trim state) left)) [
      | inl e ↦ absurd (unfold accept_callback consume_x_oauth_state in ground arith)
      | inr (s, e) ↦
          let same : s.verifier ≡ verifier =
            unfold accept_callback consume_x_oauth_state in ground arith in
          (
            s.created_at,
            subst (λ v. Within (begin s.created_at (trim state) v) history) same
                (unfold IsBegun in All-lookup (IsBegun history) (trim state) s left begun e),
            ground (arith, lookup-prune_some now (trim state) s p e),
          )
    ]

-- A call within the lifetime of what was begun at `begun`, which neither begins `state` anew nor
-- is its callback.
abbrev pub Spares : Text → Time → Call → Type 0
Spares state begun (begin now other verifier) =
    ((other == state) ≡ false) × (now - begun ≤ x_oauth_state_ttl)
Spares state begun (callback now other code) =
    ((trim other == state) ≡ false) × (now - begun ≤ x_oauth_state_ttl)
Spares state begun (status now other) = now - begun ≤ x_oauth_state_ttl

perform-Spares :
    (state : Text) (s : XoAuthState) (c : Call) (p : Pending)
    → Spares state s.created_at c
    → lookup state p ≡ some s
    → lookup state (perform c p) ≡ some s
unfolding perform
perform-Spares state s (begin now other verifier) p (o, within) h =
    unfold begin_x_oauth in
    ground (
      arith,
      lookup-prune_fresh now state s p h,
      lookup-insert other state (record { verifier = verifier; created_at = now })
          (prune_expired_x_oauth_states now p),
    )
perform-Spares state s (callback now other code) p (o, within) h =
    unfold accept_callback consume_x_oauth_state in
    ground (
      arith,
      lookup-prune_fresh now state s p h,
      lookup-delete (trim other) state (prune_expired_x_oauth_states now p),
    )
perform-Spares state s (status now other) p within h =
    unfold has_x_oauth_state in ground (arith, lookup-prune_fresh now state s p h)

perform_all-Spares :
    (state : Text) (s : XoAuthState) (cs : List Call) (p : Pending)
    → All (Spares state s.created_at) cs
    → lookup state p ≡ some s
    → lookup state (perform_all cs p) ≡ some s
perform_all-Spares state s [] p spared h = h
perform_all-Spares state s (c ∷ cs) p (o, spared) h =
    perform_all-Spares state s cs (perform c p) spared (perform-Spares state s c p o h)

-- After an authorization was begun with a state, and any calls within its lifetime that neither
-- begin that state again nor are its callback, a callback with that state and a code that are not
-- blank gets its verifier, if its age is still at most the lifetime.
pub begin-accept_callback :
    (now later : Time) (state code verifier : Text) (p : Pending) (cs : List Call)
    → is_nil (trim state) ≡ false
    → is_nil (trim code) ≡ false
    → All (Spares (trim state) now) cs
    → later - now ≤ x_oauth_state_ttl
    → (accept_callback later state code
        (perform_all cs (begin_x_oauth now (trim state) verifier p))).1
      ≡ ok verifier
begin-accept_callback now later state code verifier p cs hs hc spared within =
    let s : XoAuthState = record { verifier = verifier; created_at = now } in
    let begun = begin_x_oauth now (trim state) verifier p in
    let old = prune_expired_x_oauth_states now p in
    let found : lookup (trim state) (perform_all cs begun) ≡ some s =
      perform_all-Spares (trim state) s cs begun spared
        (unfold begin_x_oauth in lookup-insert_self (trim state) s old) in
    unfold accept_callback consume_x_oauth_state in
    ground (arith, lookup-prune_fresh later (trim state) s (perform_all cs begun) found)
