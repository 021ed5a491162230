-- ===== src/Serving/Json.antt =====
-- JSON values as encoding/json decodes them. A number is an integer that a float64 holds; other
-- numbers are left out. An object has no key twice, and a field of a struct is matched by its exact
-- name: Go's decoder also takes another case.
use gomcp.Prelude.{
  Bool, true, false, Option, none, some, String, string_key, ◌==◌, if◌then◌else◌, ℤ,
}

mutual
  pub data Json : Type 0 where
    null : Json
    boolean : Bool → Json
    number : ℤ → Json
    string : String → Json
    array : Items → Json
    object : Fields → Json

  pub data Items : Type 0 where
    end : Items
    item : Json → Items → Items

  pub data Fields : Type 0 where
    empty : Fields
    field : String → Json → Fields → Fields

unfoldable pub get : String → Fields → Option Json
get k empty = none
get k (field j v rest) = if j == k then some v else get k rest

-- The kinds of a struct's fields. `null` leaves a field as it is.
pub data Kind : Type 0 where
  text_kind : Kind
  map_kind : Kind
  list_kind : Kind

unfoldable pub has_kind : Kind → Json → Bool
has_kind kind null = true
has_kind text_kind (string s) = true
has_kind text_kind (boolean b) = false
has_kind text_kind (number n) = false
has_kind text_kind (array vs) = false
has_kind text_kind (object m) = false
has_kind map_kind (string s) = false
has_kind map_kind (boolean b) = false
has_kind map_kind (number n) = false
has_kind map_kind (array vs) = false
has_kind map_kind (object m) = true
has_kind list_kind (string s) = false
has_kind list_kind (boolean b) = false
has_kind list_kind (number n) = false
has_kind list_kind (array vs) = true
has_kind list_kind (object m) = false

unfoldable pub field_fits : Kind → Option Json → Bool
field_fits kind none = true
field_fits kind (some v) = has_kind kind v

-- What a string field holds after decoding: the zero value where the key is absent or null.
unfoldable pub text_of : Option Json → String
text_of (some (string s)) = s
text_of (some null) = ""
text_of (some (boolean b)) = ""
text_of (some (number n)) = ""
text_of (some (array vs)) = ""
text_of (some (object m)) = ""
text_of none = ""

-- What a field of type `interface{}` holds: nil where the key is absent or null.
unfoldable pub value_of : Option Json → Option Json
value_of (some null) = none
value_of (some (string s)) = some (string s)
value_of (some (boolean b)) = some (boolean b)
value_of (some (number n)) = some (number n)
value_of (some (array vs)) = some (array vs)
value_of (some (object m)) = some (object m)
value_of none = none

-- The object that a value decodes to a map or a struct from; `null` decodes to the empty one.
unfoldable pub object_of : Json → Option Fields
object_of null = some empty
object_of (object m) = some m
object_of (boolean b) = none
object_of (number n) = none
object_of (string s) = none
object_of (array vs) = none
