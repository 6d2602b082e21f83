-- ===== src/ReadModel/Distinct.antt =====
-- Keys of different owners, and of different things of one owner, are different.
use second_brain.Prelude.{
  Lacks, Text, ap, append_cancel, arith, codes, false, ne→==, split, split-append, sym, ◌++◌, ◌==◌,
  ◌∙◌, ◌∷◌, ◌≡◌, ◌≢◌,
}
use second_brain.ReadModel.Keys.{key, owner_of}

key_suffix : (owner s t : Text) → key owner s ≡ key owner t → s ≡ t
unfolding key
key_suffix owner s t h =
    append_cancel (codes ":") s t
      (append_cancel (owner_of owner) _ _ (append_cancel (codes "sb:v1:") _ _ h))

pub key-ne : (owner s t : Text) → s ≢ t → (key owner s == key owner t) ≡ false
key-ne owner s t n = ne→== _ _ (λ e. n (key_suffix owner s t e))

-- The owner of a key can be read off it, if no owner has a colon.
key_owner :
    (owner other s t : Text)
    → Lacks b':' (owner_of owner)
    → Lacks b':' (owner_of other)
    → key owner s ≡ key other t
    → owner_of owner ≡ owner_of other
unfolding key
key_owner owner other s t h h' e =
    let behind : owner_of owner ++ b':' ∷ s ≡ owner_of other ++ b':' ∷ t =
      unfold codes in append_cancel (codes "sb:v1:") _ _ e in
    let parts : owner_of owner ∷ split s b':' ≡ owner_of other ∷ split t b':' =
      sym (split-append b':' (owner_of owner) s h)
      ∙ ap (λ u. split u b':') behind
      ∙ split-append b':' (owner_of other) t h' in
    cc

pub key-ne_owner :
    (owner other s t : Text)
    → Lacks b':' (owner_of owner)
    → Lacks b':' (owner_of other)
    → owner_of owner ≢ owner_of other
    → (key owner s == key other t) ≡ false
key-ne_owner owner other s t h h' n = ne→== _ _ (λ e. n (key_owner owner other s t h h' e))

-- The other kinds of keys that name a run differ from that of a state.
pub run-ne : (t q : Text) → codes "run:" ++ t ≢ codes "app-state:" ++ q
unfolding codes
run-ne t q e = ground arith

pub digests-ne : (t q : Text) → codes "digests:" ++ t ≢ codes "app-state:" ++ q
unfolding codes
digests-ne t q e = ground arith

pub graph-ne : (t q : Text) → codes "graph:" ++ t ≢ codes "app-state:" ++ q
unfolding codes
graph-ne t q e = ground arith

pub ask-ne : (t q : Text) → codes "ask:context:" ++ t ≢ codes "app-state:" ++ q
unfolding codes
ask-ne t q e = ground arith

pub view-ne : (t q : Text) → codes "view:" ++ t ≢ codes "app-state:" ++ q
unfolding codes
view-ne t q e = ground arith

pub materials-ne : codes "source-materials" ≢ codes "manifest"
unfolding codes
materials-ne e = ground arith

pub sources-ne : (q : Text) → codes "source-materials" ≢ codes "app-state:" ++ q
unfolding codes
sources-ne q e = ground arith
