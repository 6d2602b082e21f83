-- ===== src/Delivery/Send.antt =====
-- `deliverDigest` of digest_delivery.go. The text of the mail and the request are parameters.
use second_brain.Prelude.{
  List, Outcome, Text, [], codes, err, if◌then◌else◌, is_nil, not, ok, some, trim, ◌&&◌, ◌++◌, ◌∷◌,
}
use second_brain.Models.{Config, DigestDelivery, DigestIssue, Time}
use second_brain.Run.Transcripts.{credential_hint}

-- The answer of the provider: an identifier, and the message of its `error` object, blank where
-- there is none.
pub record ResendResponse : Type 0 where
  pub id : Text
  pub error_message : Text

-- The JSON of the mail, and what the request answers for its idempotency key and its body.
pub record Mailer : Type 0 where
  pub encode : Config → DigestIssue → Outcome Text Text
  pub post : Text → Text → Outcome Text ResendResponse

unfoldable pub digest_delivery_idempotency_key : Text → Text
digest_delivery_idempotency_key base_key =
    if is_nil (trim base_key) then codes "digest" else trim base_key

abbrev pub blocked_delivery : Config → Time → DigestDelivery
blocked_delivery cfg now = record {
  provider = codes "resend";
  recipient = trim cfg.digest_email_to;
  status = codes "blocked";
  provider_message_id = [];
  error = [];
  attempted_at = some now;
}

abbrev pub with_error : Text → DigestDelivery → DigestDelivery
with_error error delivery = record delivery { error = error }

-- Once the provider has answered.
unfoldable pub answered_delivery : DigestDelivery → Outcome Text ResendResponse → DigestDelivery
answered_delivery delivery (err e) = record delivery {
  status = codes "failed";
  error = codes "Resend delivery failed: " ++ e;
}
answered_delivery delivery (ok response) =
    if not (is_nil response.error_message)
    then record delivery { status = codes "failed"; error = response.error_message }
    else record delivery { status = codes "sent"; provider_message_id = response.id }

-- The delivery, and the idempotency keys of the mails that were handed to the provider.
unfoldable pub deliver_digest : Mailer → Config → Time → DigestIssue → DigestDelivery × List Text
unfolding digest_delivery_idempotency_key answered_delivery credential_hint
deliver_digest mailer cfg now digest =
    let delivery = blocked_delivery cfg now in
    let key = digest_delivery_idempotency_key digest.idempotency_key in
    if is_nil (trim cfg.digest_email_to)
    then (with_error (codes "DIGEST_EMAIL_TO is not configured.") delivery, [])
    else if is_nil (trim cfg.resend_api_key) && not cfg.one_cli_gateway
    then (with_error (credential_hint (codes "RESEND_API_KEY")) delivery, [])
    else elim (mailer.encode cfg digest) [
      | err e ↦ (with_error e delivery, [])
      | ok raw ↦ (answered_delivery delivery (mailer.post key raw), key ∷ [])
    ]
