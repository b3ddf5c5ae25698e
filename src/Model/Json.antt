-- ===== src/Model/Json.antt =====
-- The untyped values of `map[string]any`, as encoding/json decodes them.
use evo_bot_runtime.Prelude.{Option, none, some, if◌then◌else◌, Bool}
use evo_bot_runtime.Prelude.Text.{Text, text_eq}

-- A number is kept as the text that it was decoded from: the source never reads one.
mutual
  pub data Value : Type 0 where
    null : Value
    boolean : Bool → Value
    num : Text → Value
    str : Text → Value
    arr : Items → Value
    obj : Fields → Value

  pub data Items : Type 0 where
    nil : Items
    cons : Value → Items → Items

  pub data Fields : Type 0 where
    end : Fields
    field : Text → Value → Fields → Fields

-- `map[string]any`; `none` is the nil map.
abbrev pub Metadata : Type 0
Metadata = Option Fields

-- `m[key]` with its second result
unfoldable pub get : Fields → Text → Option Value
get Fields.end k = none
get (Fields.field j v fs) k = if text_eq j k then some v else get fs k

-- a read of a map that may be nil
unfoldable pub index : Metadata → Text → Option Value
unfolding get
index none k = none
index (some fs) k = get fs k
