-- ===== src/Tests/Delivery.antt =====
-- A digest that is mailed once, on the local store.
use second_brain.Prelude.{
  Text, [], arith, codes, insert, none, ok, refl, some, true, ℕ, ◌==◌, ◌∷◌, ◌≡◌, ◌≢◌, trim, lookup,
}
use second_brain.Models.{Config, DigestIssue, Result}
use second_brain.LocalStore.Files.{read_file, replace_file}
use second_brain.LocalStore.Latest.{read_latest, save_digest, save_run}
use second_brain.Digest.Inputs.{digest_inputs_for_latest}
use second_brain.Digest.Refs.{digest_source_ref_map}
use second_brain.Delivery.Send.{Mailer, answered_delivery, deliver_digest}
use second_brain.Delivery.Generate.{
  Answers, Tools, annotate_digest_illustration, canonical, continuity_inputs, draft_digest,
  ensure_digest_id, generate_digest, generate_from, has_digest_inputs, is_sent_digest_for_date,
  normalize_result_insight_engine, send_digest, send_drafted,
}
use second_brain.Delivery.Daily.{generations, generations_once}
use second_brain.Delivery.LocalDigests.{
  Answered, Counted, local_digests, local_digests-Remembers, local_read, local_save,
}
use second_brain.Tests.Blank.{blank_digest_issue, blank_result, blank_summary}
use second_brain.Tests.LocalStore.{Document, json, laws, of_result, path, quiet}
use second_brain.Tests.Settings.{blank_config}

abbrev answered : ℕ → Answered Document
answered n = record { io = quiet; io' = quiet; between = λ files. files }

abbrev tools : Tools
tools = record {
  equal_fold = λ s t. s == t;
  cluster_insights = λ xs. none;
  rank_insights = λ xs cs. xs;
  illustration_url = λ id. id;
}

abbrev mailer : Mailer
mailer = record {
  encode = λ c d. ok [];
  post = λ key raw. ok (record { id = b'i' ∷ []; error_message = [] });
}

abbrev cfg : Config
cfg = record blank_config { digest_email_to = b'a' ∷ []; resend_api_key = b'k' ∷ [] }

abbrev today : Text
today = b'1' ∷ []

abbrev composed : DigestIssue
composed = record blank_digest_issue {
  id = b'd' ∷ [];
  digest_date = today;
  idempotency_key = codes "daily:1";
  body_markdown = b'b' ∷ [];
}

-- The store has no new references: the digest is composed of the whole run.
abbrev asked : Answers
asked = record {
  now = 5;
  date = today;
  refs = λ r. ok [];
  compose = λ inputs. ok composed;
  new_id = ok [];
}

abbrev latest : Result
latest = record blank_result { summaries = some (blank_summary ∷ []) }

abbrev stored : Counted json path answered
stored = (0, insert path (of_result latest) [])

abbrev mailed : DigestIssue
mailed = record composed {
  status = codes "sent";
  deliveries =
      record {
        provider = codes "resend";
        recipient = b'a' ∷ [];
        status = codes "sent";
        provider_message_id = b'i' ∷ [];
        error = [];
        attempted_at = some 5;
      }
      ∷ [];
}

returned :
    (generate_digest (local_digests json path answered) tools mailer cfg asked stored).1
    ≡ ok (some mailed)
unfolding generate_digest generate_from send_drafted send_digest local_digests local_read local_save
    read_latest read_file canonical normalize_result_insight_engine annotate_digest_illustration
    is_sent_digest_for_date draft_digest has_digest_inputs digest_inputs_for_latest
    digest_source_ref_map continuity_inputs ensure_digest_id deliver_digest answered_delivery
    save_digest save_run replace_file insert lookup trim codes ◌==◌
returned = refl

delivered :
    (generate_digest (local_digests json path answered) tools mailer cfg asked stored).2 ≢ []
unfolding generate_digest generate_from send_drafted send_digest local_digests local_read local_save
    read_latest read_file canonical normalize_result_insight_engine annotate_digest_illustration
    is_sent_digest_for_date draft_digest has_digest_inputs digest_inputs_for_latest
    digest_source_ref_map continuity_inputs ensure_digest_id deliver_digest answered_delivery
    save_digest save_run replace_file insert lookup trim codes ◌==◌
delivered = λ e. ground arith

counts_as_sent : is_sent_digest_for_date tools (some mailed) today ≡ true
unfolding is_sent_digest_for_date codes ◌==◌ trim
counts_as_sent = refl

generations_once_example :
    let out = generate_digest (local_digests json path answered) tools mailer cfg asked stored in
    (generations (local_digests json path answered) tools mailer cfg (asked ∷ asked ∷ []) out.0).1
    ≡ []
generations_once_example =
    generations_once (local_digests json path answered) tools mailer cfg
      (local_digests-Remembers json path answered laws) asked stored mailed (asked ∷ asked ∷ [])
      returned delivered counts_as_sent (refl, (refl, tt))
