-- ===== src/Validation/Reflect.antt =====
-- core/types.go: what reflection sees of a struct that a request is bound to, by its fields in their order.
use goichi.Prelude.{
  ℕ, ◌-◌, ◌%◌, ◌^◌, Bool, true, false, not, ◌&&◌, ◌==◌, ltb, if◌then◌else◌, is_empty,
}
use goichi.Prelude.Text.{Bytes}
use goichi.Prelude.Int.{ℤ, pos, negsuc}

-- field.Name and the parts of field.Tag.
pub record Tags : Type 0 where
  pub name : Bytes
  pub json : Bytes
  pub query : Bytes
  pub param : Bytes
  pub header : Bytes
  pub validate : Bytes

-- A field by its kind. An integer has the width of its type; a float is the bits of its float64; a slice,
-- an array or a map has its length and whether it is the zero value, and so has any other value.
mutual
  pub data FieldValue : Type 0 where
    string_value : Bytes → FieldValue
    int_value : (width : ℕ) → ℤ → FieldValue
    uint_value : (width : ℕ) → ℕ → FieldValue
    float_value : (width bits : ℕ) → FieldValue
    bool_value : Bool → FieldValue
    items_value : (len : ℕ) (zero_value : Bool) → FieldValue
    struct_value : StructFields → FieldValue
    other_value : (zero_value : Bool) → FieldValue

  pub data StructFields : Type 0 where
    no_fields : StructFields
    field : Tags → (can_set anonymous : Bool) → FieldValue → StructFields → StructFields

abbrev pub is_zero_int : ℤ → Bool
is_zero_int (pos n) = n == 0
is_zero_int (negsuc n) = false

-- fv.IsZero(); the sign bit of a float does not matter.
unfoldable mutual
  pub is_zero : FieldValue → Bool
  is_zero (string_value s) = is_empty s
  is_zero (int_value w z) = is_zero_int z
  is_zero (uint_value w n) = n == 0
  is_zero (float_value w bits) = bits % 2 ^ 63 == 0
  is_zero (bool_value b) = not b
  is_zero (items_value n zero_value) = zero_value
  is_zero (struct_value fs) = all_zero fs
  is_zero (other_value zero_value) = zero_value

  pub all_zero : StructFields → Bool
  all_zero no_fields = true
  all_zero (field tags can_set anonymous v fs) = is_zero v && all_zero fs

-- The w bits of an integer, and the integer that they stand for.
abbrev pub residue : ℕ → ℤ → ℕ
residue w (pos n) = n % 2 ^ w
residue w (negsuc n) = 2 ^ w - 1 - n % 2 ^ w

abbrev pub signed : ℕ → ℕ → ℤ
signed w r = if ltb r (2 ^ (w - 1)) then pos r else negsuc (2 ^ w - 1 - r)
