-- ===== src/Models/Digest.antt =====
-- The daily digest, its deliveries and the sources that it refers to.
use second_brain.Prelude.{Bool, Text, List, Option}
use second_brain.Models.Base.{Time}

pub record DigestDelivery : Type 0 where
  pub provider : Text
  pub recipient : Text
  pub status : Text
  pub provider_message_id : Text
  pub error : Text
  pub attempted_at : Option Time

pub record DigestSourceRef : Type 0 where
  pub source_item_id : Text
  pub source_capture_id : Text
  pub knowledge_synthesis_id : Text
  pub source : Text
  pub external_id : Text
  pub source_url : Text
  pub title : Text
  pub capture_hash : Text
  pub first_seen_at : Option Time
  pub captured_at : Option Time
  pub synthesized_at : Option Time
  pub digest_role : Text

pub record DigestIssue : Type 0 where
  pub owner_id : Text
  pub id : Text
  pub digest_date : Text
  pub scheduled_for : Time
  pub idempotency_key : Text
  pub subject : Text
  pub body_markdown : Text
  pub status : Text
  pub illustration_prompt : Text
  pub illustration_alt : Text
  pub illustration_mime_type : Text
  pub illustration_model : Text
  pub illustration_available : Bool
  pub illustration_base64 : Text
  pub illustration_url : Text
  pub deliveries : List DigestDelivery
  pub source_refs : List DigestSourceRef

pub record DigestIllustration : Type 0 where
  pub id : Text
  pub alt : Text
  pub mime_type : Text
  pub base64 : Text

pub record FeedbackEvent : Type 0 where
  pub owner_id : Text
  pub target_type : Text
  pub target_id : Text
  pub signal : Text
  pub note : Text
  pub source_url : Text
