-- ===== src/Ai/Request.antt =====
-- The JSON-RPC envelope that `Call` builds ahead of its retries.
use evo_bot_runtime.Prelude.{List, ◌∷◌, ◌++◌, none}
use evo_bot_runtime.Prelude.Text.{Text, codes}
use evo_bot_runtime.Keys.{format}
use evo_bot_runtime.Ai.Wire.{A2aRequest, JsonRpcPart, JsonRpcRequest}
use evo_bot_runtime.Ai.Identity.{conversation_context_id, contact_user_id, non_nil_metadata}
use evo_bot_runtime.Ai.Files.{Platform, build_file_parts}

abbrev pub text_part : Text → JsonRpcPart
text_part t = record { kind = codes "text"; text = t; file = none }

-- the envelope around the file parts
abbrev pub envelope : A2aRequest → List JsonRpcPart → JsonRpcRequest
envelope req files = record {
  jsonrpc = codes "2.0";
  id = format req.contact_id ++ (b':' ∷ format req.conversation_id);
  method = codes "message/send";
  params = record {
    context_id = conversation_context_id req.metadata req.conversation_id;
    user_id = contact_user_id req.metadata req.contact_id;
    message = record { role = codes "user"; parts = text_part req.message ∷ files };
    metadata = non_nil_metadata req.metadata;
  };
}

module _ (f : Platform) where
  -- the first part of `Call`; `env` is the value of MEDIA_HOST_ALLOWLIST
  unfoldable pub build_request : Text → A2aRequest → f.World → f.World × JsonRpcRequest
  unfolding build_file_parts conversation_context_id contact_user_id non_nil_metadata
  build_request env req w =
      let files = build_file_parts f env req w in (files.0, envelope req files.1)
