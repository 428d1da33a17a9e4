-- ===== src/Json.antt =====
-- The values of `encoding/json`: what `json.Unmarshal` leaves in an `any`. A `map[string]any` is
-- `Fields`; its nil value and the empty map are both `end`. A number keeps its literal, since no
-- modelled code computes with one.
use messages.Base.{Bool, Option, none, some, [], Text, text_eq, if◌then◌else◌}
use messages.Text.{trim_space}

mutual
  pub data Json : Type 0 where
    null : Json
    boolean : Bool → Json
    number : Text → Json
    string : Text → Json
    array : Items → Json
    object : Fields → Json

  pub data Items : Type 0 where
    nil : Items
    cons : Json → Items → Items

  pub data Fields : Type 0 where
    end : Fields
    field : Text → Json → Fields → Fields

-- `value, ok := m[key]`
unfoldable pub get_field : Text → Fields → Option Json
get_field k end = none
get_field k (field j v fs) = if text_eq j k then some v else get_field k fs

-- `value, ok := x.(map[string]any)`
abbrev pub as_object : Option Json → Option Fields
as_object (some (object fs)) = some fs
as_object _ = none

-- The map of `value, _ := x.(map[string]any)`, nil where the assertion fails.
abbrev pub object_or_nil : Option Json → Fields
object_or_nil (some (object fs)) = fs
object_or_nil _ = end

-- `value, _ := x.(string)`
abbrev pub string_or_empty : Option Json → Text
string_or_empty (some (string s)) = s
string_or_empty _ = []

-- stringField: the trimmed string under a key, "" where there is none
unfoldable pub string_field : Fields → Text → Text
string_field m key = trim_space (string_or_empty (get_field key m))
