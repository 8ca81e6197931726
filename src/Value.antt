-- ===== src/Value.antt =====
-- Values of Python that reach the source untyped: decoded JSON documents, checkpoints that an
-- application hands back, and arguments whose type the source tests with `isinstance`.
use deixic_python.Base.{String, Bool, Option, none, some, text_eq, if◌then◌else◌}
use deixic_python.Base.Int.{ℤ}

-- A float: a finite one in billionths, or one of the three that are not finite.
pub data Float : Type 0 where
  finite : ℤ → Float
  infinity minus_infinity nan : Float

mutual
  pub data Value : Type 0 where
    null : Value
    bool : Bool → Value
    int : ℤ → Value
    float : Float → Value
    text : String → Value
    list : Items → Value
    dict : Fields → Value

  pub data Items : Type 0 where
    nil : Items
    cons : Value → Items → Items

  pub data Fields : Type 0 where
    end : Fields
    field : String → Value → Fields → Fields

-- `fields.get(name)`
unfoldable pub get : String → Fields → Option Value
get name end = none
get name (field key value rest) = if text_eq key name then some value else get name rest

-- `isinstance(value, str)`, with the text
abbrev pub as_text : Option Value → Option String
as_text none = none
as_text (some null) = none
as_text (some (bool b)) = none
as_text (some (int n)) = none
as_text (some (float x)) = none
as_text (some (text s)) = some s
as_text (some (list xs)) = none
as_text (some (dict fs)) = none

-- `isinstance(value, Mapping)`, with the fields
abbrev pub as_dict : Option Value → Option Fields
as_dict none = none
as_dict (some null) = none
as_dict (some (bool b)) = none
as_dict (some (int n)) = none
as_dict (some (float x)) = none
as_dict (some (text s)) = none
as_dict (some (list xs)) = none
as_dict (some (dict fs)) = some fs
