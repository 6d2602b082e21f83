-- ===== src/Delivery/Daily.antt =====
-- A digest that was sent and saved is not sent again on its day.
use second_brain.Prelude.{
  Bool-cases, List, Option, Outcome, Text, [], ap, arith, err, inl, inr, is_nil, none, not, ok,
  refl, some, subst, sym, trim, true, ◌&&◌, ◌||◌, ◌++◌, ◌∙◌, ◌∷◌, ◌≡◌, ◌≢◌, All,
}
use second_brain.Models.{Config, DigestIssue, Result}
use second_brain.Delivery.Send.{Mailer}
use second_brain.Delivery.Generate.{
  Answers, DigestStore, Tools, annotate_digest_illustration, canonical, draft_digest,
  generate_digest, generate_from, is_sent_digest_for_date, send_digest, send_drafted,
}

-- What a store promises: a saved digest is that of the latest run from then on, as far as date,
-- status and text go.
pub record Remembers {W : Type 0} (store : DigestStore W) : Type 1 where
  pub Kept : DigestIssue → W → Type 0
  pub save-Kept :
      (digest s : DigestIssue) (w : W)
      → (store.save_digest digest w).1 ≡ ok (some s)
      → Kept s (store.save_digest digest w).0
  pub read-Kept :
      (s : DigestIssue) (w : W) (latest : Result)
      → Kept s w
      → (store.read_latest w).1 ≡ ok (some latest)
      → (d : DigestIssue) × (latest.digest ≡ some d)
        × (d.digest_date ≡ s.digest_date)
        × (d.status ≡ s.status)
        × (d.body_markdown ≡ s.body_markdown)
  pub read_keeps : (s : DigestIssue) (w : W) → Kept s w → Kept s (store.read_latest w).0

module _ {W : Type 0} (store : DigestStore W) (tools : Tools) (mailer : Mailer) (cfg : Config) where
  -- Generations, one after the other: the state behind them, and all mails.
  unfoldable pub generations : List Answers → W → W × List Text
  unfolding generate_digest
  generations [] w = (w, [])
  generations (a ∷ rest) w =
      let (w', out, mails) = generate_digest store tools mailer cfg a w in
      let (w'', mails') = generations rest w' in (w'', mails ++ mails')

  annotated-same :
      (d : DigestIssue)
      → let e = annotate_digest_illustration tools d in
        (e.digest_date ≡ d.digest_date)
        × (e.status ≡ d.status)
        × (e.body_markdown ≡ d.body_markdown)
  unfolding annotate_digest_illustration
  annotated-same d =
      let has_illustration =
        d.illustration_available
        || not (is_nil (trim d.illustration_base64))
        || not (is_nil (trim d.illustration_mime_type))
        || not (is_nil (trim d.illustration_alt)) in
      elim (Bool-cases (not (is_nil (trim d.id)) && has_illustration)) [
        | inl e ↦ rw e (refl, refl, refl)
        | inr e ↦ rw e (refl, refl, refl)
      ]

  -- The digest that a generation reads is the one that was saved.
  read_sent :
      (latest : Result) (d s : DigestIssue) (date : Text)
      → latest.digest ≡ some d
      → d.digest_date ≡ s.digest_date
      → d.status ≡ s.status
      → d.body_markdown ≡ s.body_markdown
      → is_sent_digest_for_date tools (some s) date ≡ true
      → is_sent_digest_for_date tools (canonical tools latest).digest date ≡ true
  unfolding is_sent_digest_for_date canonical
  read_sent latest d s date h h1 h2 h3 sent =
      let (e1, e2, e3) = annotated-same d in rw h (rw (e1, e2, e3) (rw (h1, h2, h3) sent))

  module _ (law : Remembers store) where
    drafted-Kept :
        (a : Answers) (w : W) (drafted : Outcome Text DigestIssue) (s : DigestIssue)
        → let out = send_drafted store tools mailer cfg a w drafted in
          out.1 ≡ ok (some s) → law.Kept s out.0
    unfolding send_drafted send_digest
    drafted-Kept a w (err e) s returned = absurd (ground arith)
    drafted-Kept a w (ok digest) s returned = law.save-Kept _ s w returned

    -- A generation mails only by way of a save.
    mailed-Kept :
        (a : Answers) (w : W) (read : Outcome Text (Option Result)) (s : DigestIssue)
        → let out = generate_from store tools mailer cfg a w read in
          out.1 ≡ ok (some s) → out.2 ≢ [] → law.Kept s out.0
    unfolding generate_from
    mailed-Kept a w (err e) s returned mailed = absurd (mailed refl)
    mailed-Kept a w (ok none) s returned mailed = absurd (mailed refl)
    mailed-Kept a w (ok (some latest)) s returned mailed =
        elim (Bool-cases (is_sent_digest_for_date tools (canonical tools latest).digest a.date)) [
          | inl e ↦ absurd (mailed (rw e refl))
          | inr e ↦
              let drafted = draft_digest tools cfg a (canonical tools latest) in
              let same : generate_from store tools mailer cfg a w (ok (some latest))
                  ≡ send_drafted store tools mailer cfg a w drafted =
                rw e refl in
              subst (λ (out : W × Outcome Text (Option DigestIssue) × List Text). law.Kept s out.0)
                (sym same) (drafted-Kept a w drafted s (ap (λ o. o.1) (sym same) ∙ returned))
        ]

    kept-generation :
        (a : Answers) (w : W) (read : Outcome Text (Option Result)) (s : DigestIssue)
        → law.Kept s w
        → ((latest : Result)
            → read ≡ ok (some latest)
            → is_sent_digest_for_date tools (canonical tools latest).digest a.date ≡ true)
        → let out = generate_from store tools mailer cfg a w read in (out.2 ≡ []) × law.Kept s out.0
    unfolding generate_from
    kept-generation a w (err e) s kept sent = (refl, kept)
    kept-generation a w (ok none) s kept sent = (refl, kept)
    kept-generation a w (ok (some latest)) s kept sent = rw (sent latest refl) (refl, kept)

    kept-generations :
        (date : Text) (later : List Answers) (w : W) (s : DigestIssue)
        → law.Kept s w
        → is_sent_digest_for_date tools (some s) date ≡ true
        → All (λ a. a.date ≡ date) later
        → (generations later w).1 ≡ []
    unfolding generations generate_digest
    kept-generations date [] w s kept sent same = refl
    kept-generations date (a ∷ later) w s kept sent (d, same) =
        let read = store.read_latest w in
        let (silent, kept') =
          kept-generation a read.0 read.1 s (law.read_keeps s w kept) (λ latest h.
            let (e, h0, h1, h2, h3) = law.read-Kept s w latest kept h in
            read_sent latest e s a.date h0 h1 h2 h3 (rw d sent)) in
        rw silent (kept-generations date later _ s kept' sent same)

-- If the store remembers a digest that it saved: once a generation has sent a mail and returned a
-- digest that counts as sent on a date, no later generation on that date sends a mail, whatever it
-- is answered.
pub generations_once :
    {W : Type 0} (store : DigestStore W) (tools : Tools) (mailer : Mailer) (cfg : Config)
    → Remembers store
    → (a : Answers) (w : W) (s : DigestIssue) (later : List Answers)
    → let out = generate_digest store tools mailer cfg a w in
      out.1 ≡ ok (some s)
      → out.2 ≢ []
      → is_sent_digest_for_date tools (some s) a.date ≡ true
      → All (λ b. b.date ≡ a.date) later
      → (generations store tools mailer cfg later out.0).1 ≡ []
unfolding generate_digest
generations_once store tools mailer cfg law a w s later returned mailed sent same =
    let read = store.read_latest w in
    let kept = mailed-Kept store tools mailer cfg law a read.0 read.1 s returned mailed in
    kept-generations store tools mailer cfg law a.date later _ s kept sent same
