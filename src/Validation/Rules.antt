-- ===== src/Validation/Rules.antt =====
-- core/types.go: Validate, the walk over the fields of a struct with the rules of their validate tags.
-- The e-mail expression is matched by package regexp, and a float64 is cut to an int64 by the language;
-- both are an interface.
pub mod Meaning
pub mod Complaints
use goichi.Prelude.{
  ℕ, Bool, true, false, not, ◌&&◌, Option, none, some, List, [], ◌∷◌, ◌++◌, if◌then◌else◌, is_empty,
  length, ltb, drop,
}
use goichi.Prelude.Text.{Bytes, codes, bytes_eq, split, trim_space}
use goichi.Prelude.Int.{ℤ, pos}
use goichi.Http.{Error, validation}
use goichi.Middleware.Body.{is_prefix, decimal}
use goichi.Validation.{
  Field, string_of, items_of, int_of, float_of, other, Complaint, none_found, too_short, too_small,
  too_few, too_long, too_large, too_many, is_numeric, is_alpha, parse_int_rule, check_min,
  check_max,
}
use goichi.Validation.Reflect.{
  Tags, FieldValue, string_value, int_value, uint_value, float_value, bool_value, items_value,
  struct_value, other_value, StructFields, no_fields, field, is_zero, signed,
}

pub record Matching : Type 0 where
  pub match_string : Bytes → Bytes → Bool
  pub to_int64 : ℕ → ℤ

abbrev pub email_regex : Bytes
email_regex =
    codes
      "^[a-zA-Z0-9.!#$%&'*+/=?^_`{|}~-]+@[a-zA-Z0-9](?:[a-zA-Z0-9-]{0,61}[a-zA-Z0-9])?(?:\\.[a-zA-Z0-9](?:[a-zA-Z0-9-]{0,61}[a-zA-Z0-9])?)+$"

-- The first part of a split, which always has one.
abbrev first_part : List Bytes → Bytes
first_part [] = []
first_part (p ∷ ps) = p

abbrev pub or_else : Bytes → Bytes → Bytes
or_else s next = if is_empty s then next else s

-- The name by which a complaint calls a field.
unfoldable pub field_name : Tags → Bytes
unfolding split
field_name t =
    first_part
      (split b',' (or_else t.json (or_else t.query (or_else t.param (or_else t.header t.name)))))

-- The int64 that a number of a rule has.
abbrev pub bound_of : Bytes → ℤ
bound_of digits = signed 64 (parse_int_rule digits)

abbrev pub complaint_text : Bytes → ℤ → Complaint → List Bytes
complaint_text name m none_found = []
complaint_text name m too_short =
    (name ++ (codes " must be at least " ++ (decimal m ++ codes " characters"))) ∷ []
complaint_text name m too_small = (name ++ (codes " must be >= " ++ decimal m)) ∷ []
complaint_text name m too_few =
    (name ++ (codes " must have at least " ++ (decimal m ++ codes " items"))) ∷ []
complaint_text name m too_long =
    (name ++ (codes " must be at most " ++ (decimal m ++ codes " characters"))) ∷ []
complaint_text name m too_large = (name ++ (codes " must be <= " ++ decimal m)) ∷ []
complaint_text name m too_many =
    (name ++ (codes " must have at most " ++ (decimal m ++ codes " items"))) ∷ []

abbrev pub when : Bool → Bytes → List Bytes
when b message = if b then message ∷ [] else []

abbrev pub string_fails : (Bytes → Bool) → FieldValue → Bool
string_fails accepts (string_value s) = not (accepts s)
string_fails accepts _ = false

abbrev pub as_error : List Bytes → Option Error
as_error [] = none
as_error (e ∷ es) = some (validation (e ∷ es))

module _ (M : Matching) where
  -- What the bounds of a rule are compared with.
  abbrev pub measured : FieldValue → Field
  measured (string_value s) = string_of (length s)
  measured (int_value w z) = int_of z
  measured (uint_value w n) = other
  measured (float_value w bits) = float_of (M.to_int64 bits)
  measured (bool_value b) = other
  measured (items_value n zero_value) = items_of n
  measured (struct_value fs) = other
  measured (other_value zero_value) = other

  unfoldable pub is_email : Bytes → Bool
  is_email s =
      if is_empty s
      then true
      else if ltb 254 (length s)
      then false
      else M.match_string email_regex s

  -- A rule that is none of the known ones is passed over.
  unfoldable pub apply_rule : Bytes → FieldValue → Bytes → List Bytes
  unfolding is_email is_numeric is_alpha is_zero parse_int_rule check_min check_max
  apply_rule name v rule =
      if bytes_eq rule (codes "required")
      then when (is_zero v) (name ++ codes " is required")
      else if bytes_eq rule (codes "email")
      then when (string_fails is_email v) (name ++ codes " must be a valid email")
      else if bytes_eq rule (codes "numeric")
      then when (string_fails is_numeric v) (name ++ codes " must be numeric")
      else if bytes_eq rule (codes "alpha")
      then when (string_fails is_alpha v) (name ++ codes " must contain only letters")
      else if is_prefix (codes "min=") rule
      then (let m = bound_of (drop 4 rule) in complaint_text name m (check_min (measured v) m))
      else if is_prefix (codes "max=") rule
      then (let m = bound_of (drop 4 rule) in complaint_text name m (check_max (measured v) m))
      else []

  unfoldable pub apply_rules : Bytes → FieldValue → List Bytes → List Bytes
  unfolding apply_rule trim_space
  apply_rules name v [] = []
  apply_rules name v (rule ∷ rules) =
      apply_rule name v (trim_space rule) ++ apply_rules name v rules

  -- The rules of a field that is no embedded struct.
  abbrev pub check_field : Tags → FieldValue → List Bytes
  check_field tags v =
      if is_empty tags.validate
      then []
      else apply_rules (field_name tags) v (split b',' tags.validate)

  -- What the walk appends to errs.
  unfoldable pub validate_struct : StructFields → List Bytes
  unfolding apply_rules field_name split
  validate_struct no_fields = []
  validate_struct (field tags can_set true (struct_value inner) fs) =
      validate_struct inner ++ validate_struct fs
  validate_struct (field tags can_set anonymous v fs) = check_field tags v ++ validate_struct fs

  unfoldable pub validate : StructFields → Option Error
  unfolding validate_struct
  validate fs = as_error (validate_struct fs)
