-- ===== src/Python/Json.antt =====
-- The values that `json` reads, with the conversions and tests that the program applies to them.
use homeassistant_2gig_gc.Prelude.{
  ℕ, suc, ◌*◌, ◌/◌, ◌^◌, Bool, true, false, not, Text, codes, ◌==◌, ℤ, pos, text_Eq, negsuc, signed,
  is_nonzero, int_text, nat_eq, is_empty, if◌then◌else◌,
}

-- A floating-point number: a sign, and mantissa * 2 ^ exponent; or an infinity, or not a number.
pub data Float : Type 0 where
  finite : Bool → ℕ → ℤ → Float
  infinite : Bool → Float
  nan : Float

mutual
  pub data Json : Type 0 where
    null : Json
    bool : Bool → Json
    int : ℤ → Json
    float : Float → Json
    str : Text → Json
    arr : Items → Json
    obj : Fields → Json

  pub data Items : Type 0 where
    nil : Items
    cons : Json → Items → Items

  -- The entries of a `dict`, with its keys once each.
  pub data Fields : Type 0 where
    end : Fields
    field : Text → Json → Fields → Fields

-- `x != 0`
abbrev pub float_nonzero : Float → Bool
float_nonzero (finite neg m e) = not (nat_eq m 0)
float_nonzero (infinite neg) = true
float_nonzero nan = true

-- `bool(value)`
abbrev pub truthy : Json → Bool
truthy null = false
truthy (bool b) = b
truthy (int n) = is_nonzero n
truthy (float x) = float_nonzero x
truthy (str s) = not (is_empty s)
truthy (arr nil) = false
truthy (arr (cons v vs)) = true
truthy (obj end) = false
truthy (obj (field k v fs)) = true

-- `a or b`
abbrev pub or_value : Json → Json → Json
or_value a b = if truthy a then a else b

-- `fields.get(key)`: a key that is not there reads as `None`.
unfoldable pub get_field : Fields → Text → Json
get_field end key = null
get_field (field k v fs) key = if k == key then v else get_field fs key

-- `str(value)`; `repr` is what Python prints for a float, a list or a dict.
unfoldable pub str_of : (Json → Text) → Json → Text
str_of repr null = codes "None"
str_of repr (bool true) = codes "True"
str_of repr (bool false) = codes "False"
str_of repr (int n) = int_text n
str_of repr (str s) = s
str_of repr v = repr v

-- The whole part of a finite float.
unfoldable pub truncate : Bool → ℕ → ℤ → ℤ
truncate neg m (pos e) = signed neg (m * 2 ^ e)
truncate neg m (negsuc e) = signed neg (m / 2 ^ suc e)
