-- ===== src/Prelude/Json.antt =====
-- Python's values of decoded JSON. A float is given by its repr.
use lore_eden.Prelude.{
  String, Bool, true, false, not, ◌||◌, Option, none, some, ◌==◌, nat_eq, if◌then◌else◌,
}
use lore_eden.Prelude.Int.{ℤ, pos, negsuc}
use lore_eden.Prelude.Decimal.{decimal_ℤ}

mutual
  pub data Json : Type 0 where
    null : Json
    bool : Bool → Json
    int : ℤ → Json
    float : String → Json
    text : String → Json
    array : Items → Json
    object : Fields → Json

  pub data Items : Type 0 where
    no_items : Items
    item : Json → Items → Items

  pub data Fields : Type 0 where
    no_fields : Fields
    field : String → Json → Fields → Fields

-- fields.get(key); a key that stands twice has the last value.
unfoldable pub get_field : Fields → String → Option Json
get_field no_fields key = none
get_field (field k v fields) key = elim (get_field fields key) [
  | some found ↦ some found
  | none ↦ if k == key then some v else none
]

-- bool(value)
unfoldable pub is_truthy : Json → Bool
is_truthy null = false
is_truthy (bool b) = b
is_truthy (int (pos n)) = not (nat_eq n 0)
is_truthy (int (negsuc n)) = true
is_truthy (float s) = not (s == "0.0" || s == "-0.0")
is_truthy (text s) = not (s == "")
is_truthy (array no_items) = false
is_truthy (array (item _ _)) = true
is_truthy (object no_fields) = false
is_truthy (object (field _ _ _)) = true

-- `fields.get(key) or other`
abbrev pub truthy_or : Option Json → Json → Json
truthy_or none other = other
truthy_or (some v) other = if is_truthy v then v else other

-- value == "text"
abbrev pub is_text : String → Option Json → Bool
is_text s (some (text t)) = t == s
is_text s _ = false

-- str(value); `repr` is that of lists and dicts.
unfoldable pub str : (Json → String) → Json → String
str repr null = "None"
str repr (bool true) = "True"
str repr (bool false) = "False"
str repr (int n) = decimal_ℤ n
str repr (float s) = s
str repr (text s) = s
str repr (array items) = repr (array items)
str repr (object fields) = repr (object fields)
