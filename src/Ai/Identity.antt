-- ===== src/Ai/Identity.antt =====
-- `conversationContextID` and `contactUserID`: the ids that the CRM nests in the metadata, or the numeric
-- ids.
use evo_bot_runtime.Prelude.{Option, none, some, if◌then◌else◌, [], false, ◌≡◌, refl}
use evo_bot_runtime.Prelude.Int.{ℤ}
use evo_bot_runtime.Prelude.Text.{Text, codes, is_empty}
use evo_bot_runtime.Model.{Value, Metadata, Fields, get, obj, str, end, index}
use evo_bot_runtime.Keys.{format}

-- the type assertion `.(map[string]any)`, on a value that may be absent
abbrev as_map : Option Value → Metadata
as_map (some (obj fs)) = some fs
as_map _ = none

-- the type assertion `.(string)`, and "" where it fails
abbrev as_text : Option Value → Text
as_text (some (str t)) = t
as_text _ = []

-- metadata.evoai_crm_data.{kind}.id; a map that fails its assertion reads as a nil map, whose keys are
-- all absent
abbrev nested_id : Text → Metadata → Text
nested_id kind m =
    as_text (index (as_map (index (as_map (index m (codes "evoai_crm_data"))) kind)) (codes "id"))

unfoldable pub extract_conversation_uuid : Metadata → Text
extract_conversation_uuid = nested_id (codes "conversation")

unfoldable pub extract_contact_uuid : Metadata → Text
extract_contact_uuid = nested_id (codes "contact")

abbrev or_number : Text → ℤ → Text
or_number uuid id = if is_empty uuid then format id else uuid

unfoldable pub conversation_context_id : Metadata → ℤ → Text
unfolding extract_conversation_uuid
conversation_context_id m id = or_number (extract_conversation_uuid m) id

unfoldable pub contact_user_id : Metadata → ℤ → Text
unfolding extract_contact_uuid
contact_user_id m id = or_number (extract_contact_uuid m) id

-- `nonNilMetadata`
unfoldable pub non_nil_metadata : Metadata → Metadata
non_nil_metadata none = some end
non_nil_metadata (some fs) = some fs

-- Where the metadata nests a text that is not empty at evoai_crm_data.conversation.id, that text is
-- the context of the request, whatever the numeric id and the other fields are.
conversation_context_id-uuid :
    (m crm conversation : Fields) (uuid : Text) (id : ℤ)
    → get m (codes "evoai_crm_data") ≡ some (obj crm)
    → get crm (codes "conversation") ≡ some (obj conversation)
    → get conversation (codes "id") ≡ some (str uuid)
    → is_empty uuid ≡ false
    → conversation_context_id (some m) id ≡ uuid
unfolding conversation_context_id extract_conversation_uuid index
conversation_context_id-uuid m crm conversation uuid id outer middle inner full =
    rw (outer, middle, inner, full) refl

-- Where the metadata nests a text that is not empty at evoai_crm_data.contact.id, that text is the user
-- of the request, whatever the numeric id and the other fields are.
contact_user_id-uuid :
    (m crm contact : Fields) (uuid : Text) (id : ℤ)
    → get m (codes "evoai_crm_data") ≡ some (obj crm)
    → get crm (codes "contact") ≡ some (obj contact)
    → get contact (codes "id") ≡ some (str uuid)
    → is_empty uuid ≡ false
    → contact_user_id (some m) id ≡ uuid
unfolding contact_user_id extract_contact_uuid index
contact_user_id-uuid m crm contact uuid id outer middle inner full =
    rw (outer, middle, inner, full) refl
