-- ===== src/Model.antt =====
-- The types of pkg/pipeline/model/pipeline.go: the events that the service receives, and the state that
-- it keeps for a pair.
mod Json
unfoldable pub use Json.*
use evo_bot_runtime.Prelude.{ℕ, Bool, List, Option, some, none, if◌then◌else◌}
use evo_bot_runtime.Prelude.Int.{ℤ}
use evo_bot_runtime.Prelude.Text.{Text}
use evo_bot_runtime.Prelude.Float.{Float64}

-- The type is a string, so a stored value may be none of the five names.
pub data Stage : Type 0 where
  incoming debounce ai dispatch done : Stage
  other : Text → Stage

pub record PairId : Type 0 where
  pub contact_id : ℤ
  pub conversation_id : ℤ

pub record BotConfig : Type 0 where
  pub debounce_time : ℤ
  pub message_signature : Text
  pub text_segmentation_enabled : Bool
  pub text_segmentation_limit : ℤ
  pub text_segmentation_min_size : ℤ
  pub delay_per_character : Float64

pub record Attachment : Type 0 where
  pub url : Text
  pub content_type : Text
  pub file_type : Text

pub record PipelineState : Type 0 where
  pub stage : Stage
  pub created_at : ℕ
  pub bot_config : BotConfig
  pub postback_url : Text
  pub agent_bot_id : Text
  pub api_key : Text
  pub outgoing_url : Text
  pub metadata : Metadata

pub record MessageEvent : Type 0 where
  pub agent_bot_id : Text
  pub conversation_id : ℤ
  pub contact_id : ℤ
  pub message_id : Text
  pub message_content : Text
  pub attachments : List Attachment
  pub api_key : Text
  pub outgoing_url : Text
  pub bot_config : BotConfig
  pub postback_url : Text
  pub metadata : Metadata

pub data ValidationError : Type 0 where
  bad_contact bad_conversation no_postback bad_debounce bad_limit bad_delay : ValidationError
