-- ===== src/Ai/Wire.antt =====
-- pkg/ai/model/a2a.go: the request that the pipeline hands to the adapter, the JSON-RPC envelope, and
-- the response.
use evo_bot_runtime.Prelude.{List, Option}
use evo_bot_runtime.Prelude.Int.{ℤ}
use evo_bot_runtime.Prelude.Text.{Text}
use evo_bot_runtime.Model.{Metadata}

-- The adapter's own `Attachment`.
pub record Media : Type 0 where
  pub url : Text
  pub content_type : Text
  pub file_type : Text

pub record A2aRequest : Type 0 where
  pub outgoing_url : Text
  pub contact_id : ℤ
  pub conversation_id : ℤ
  pub api_key : Text
  pub message : Text
  pub metadata : Metadata
  pub attachments : List Media

pub record JsonRpcFile : Type 0 where
  pub name : Text
  pub mime_type : Text
  pub bytes : Text

pub record JsonRpcPart : Type 0 where
  pub kind : Text
  pub text : Text
  pub file : Option JsonRpcFile

pub record JsonRpcMessage : Type 0 where
  pub role : Text
  pub parts : List JsonRpcPart

pub record JsonRpcParams : Type 0 where
  pub context_id : Text
  pub user_id : Text
  pub message : JsonRpcMessage
  pub metadata : Metadata

pub record JsonRpcRequest : Type 0 where
  pub jsonrpc : Text
  pub id : Text
  pub method : Text
  pub params : JsonRpcParams

pub record A2aPart : Type 0 where
  pub kind : Text
  pub text : Text

pub record A2aArtifact : Type 0 where
  pub parts : List A2aPart

pub record A2aMessage : Type 0 where
  pub parts : List A2aPart

pub record A2aResult : Type 0 where
  pub artifacts : List A2aArtifact
  pub message : Option A2aMessage

pub record A2aResponse : Type 0 where
  pub result : Option A2aResult
