-- ===== src/Validation/Binding.antt =====
-- core/types.go: Bind, which fills a struct from a request field by field. What package strconv reads of a
-- text, the JSON decoder and fmt's %q are an interface; so are the query, the parameters and the headers.
pub mod Texts
pub mod Success
use mathlib.Core.Option
use goichi.Prelude.{
  ℕ, ◌%◌, ◌^◌, Bool, true, false, not, Option, none, some, List, [], ◌∷◌, ◌++◌, if◌then◌else◌,
  is_empty, is_some,
}
use goichi.Prelude.Text.{Bytes, codes}
use goichi.Prelude.Int.{ℤ}
use goichi.Http.{Error, failure}
use goichi.Validation.Reflect.{
  Tags, FieldValue, string_value, int_value, uint_value, float_value, bool_value, items_value,
  struct_value, other_value, StructFields, no_fields, field, residue, signed,
}
use goichi.Validation.Rules.{Matching, or_else, validate}

-- ParseInt and ParseUint to base 10 with 64 bits, ParseFloat with 64 bits, and ParseBool; the float64 that
-- a float of a width keeps; and a text in quotes.
pub record Readers : Type 0 where
  pub parse_int : Bytes → Option ℤ
  pub parse_uint : Bytes → Option ℕ
  pub parse_float : Bytes → Option ℕ
  pub parse_bool : Bytes → Option Bool
  pub rounded : ℕ → ℕ → ℕ
  pub quoted : Bytes → Bytes

-- A query argument, a path parameter and a header of the request.
pub record Source : Type 0 where
  pub query : Bytes → Bytes
  pub param : Bytes → Bytes
  pub header : Bytes → Bytes

-- The value that a field gets, or the error.
pub data Setting : Type 0 where
  set_to : FieldValue → Setting
  refused : Bytes → Setting

-- A number is cut to the bits of the field's type.
abbrev pub set_int : ℕ → ℤ → FieldValue
set_int w n = int_value w (signed w (residue w n))

abbrev pub set_uint : ℕ → ℕ → FieldValue
set_uint w n = uint_value w (n % 2 ^ w)

module _ (P : Readers) where
  abbrev pub set_float : ℕ → ℕ → FieldValue
  set_float w bits = float_value w (P.rounded w bits)

  abbrev pub setting : {A : Type 0} → Bytes → Bytes → (A → FieldValue) → Option A → Setting
  setting kind raw make none =
      refused (codes "expected " ++ (kind ++ (codes ", got " ++ P.quoted raw)))
  setting kind raw make (some a) = set_to (make a)

  -- Other kinds stay as they are.
  unfoldable pub set_field : FieldValue → Bytes → Setting
  set_field (string_value s) raw = set_to (string_value raw)
  set_field (int_value w z) raw = setting (codes "integer") raw (set_int w) (P.parse_int raw)
  set_field (uint_value w n) raw =
      setting (codes "unsigned integer") raw (set_uint w) (P.parse_uint raw)
  set_field (float_value w bits) raw =
      setting (codes "number") raw (set_float w) (P.parse_float raw)
  set_field (bool_value b) raw = setting (codes "boolean") raw bool_value (P.parse_bool raw)
  set_field (items_value n z) raw = set_to (items_value n z)
  set_field (struct_value fs) raw = set_to (struct_value fs)
  set_field (other_value z) raw = set_to (other_value z)

  -- The first of the three tags that is there says where the text is.
  unfoldable pub raw_of : Source → Tags → Bytes
  raw_of S t =
      if not (is_empty t.query)
      then S.query t.query
      else if not (is_empty t.param)
      then S.param t.param
      else if not (is_empty t.header)
      then S.header t.header
      else []

  abbrev pub after_setting : Tags → FieldValue → Setting → FieldValue × Option Bytes
  after_setting t v (set_to v') = (v', none)
  after_setting t v (refused msg) =
      (v, some (codes "field " ++ (or_else t.json t.name ++ (codes ": " ++ msg))))

  -- One field, and the error where its text cannot be read. An empty text counts as none.
  unfoldable pub bind_field : Source → Tags → FieldValue → FieldValue × Option Bytes
  unfolding set_field raw_of
  bind_field S t v =
      let raw = raw_of S t in
      if is_empty raw then (v, none) else after_setting t v (set_field v raw)

  -- After an error the fields behind stay as they were.
  abbrev pub next_field :
      Tags
      → (can_set anonymous : Bool) → FieldValue × Option Bytes
      → StructFields
      → StructFields × Option Bytes
      → StructFields × Option Bytes
  next_field t can_set anonymous (v, some err) fs rest = (field t can_set anonymous v fs, some err)
  next_field t can_set anonymous (v, none) fs (fs', err) = (field t can_set anonymous v fs', err)

  abbrev pub embedded : StructFields × Option Bytes → FieldValue × Option Bytes
  embedded (inner, err) = (struct_value inner, err)

  unfoldable pub bind_recursive : Source → StructFields → StructFields × Option Bytes
  unfolding bind_field
  bind_recursive S no_fields = (no_fields, none)
  bind_recursive S (field t false a v fs) = next_field t false a (v, none) fs (bind_recursive S fs)
  bind_recursive S (field t true true (struct_value inner) fs) =
      next_field t true true (embedded (bind_recursive S inner)) fs (bind_recursive S fs)
  bind_recursive S (field t true a v fs) =
      next_field t true a (bind_field S t v) fs (bind_recursive S fs)

-- What Bind is given: no pointer or a nil one, a pointer to something else, or one to a struct.
pub data BindTarget : Type 0 where
  no_pointer no_struct : BindTarget
  struct_at : StructFields → BindTarget

module _ (P : Readers) (M : Matching)
    (unmarshal : Bytes → StructFields → StructFields × Option Bytes)
    (set_defaults : Option (StructFields → StructFields)) where
  abbrev pub with_defaults : StructFields → StructFields
  with_defaults fs = elim set_defaults [ none ↦ fs | some f ↦ f fs ]

  abbrev pub after_bind : StructFields × Option Bytes → StructFields × Option Error
  after_bind (fs, some err) = (fs, some (failure err))
  after_bind (fs, none) = (with_defaults fs, validate M (with_defaults fs))

  abbrev pub after_json : Source → StructFields × Option Bytes → StructFields × Option Error
  after_json S (fs, some err) = (fs, some (failure (codes "invalid JSON: " ++ err)))
  after_json S (fs, none) = after_bind (bind_recursive P S fs)

  unfoldable pub bind_struct : Source → Bytes → StructFields → StructFields × Option Error
  unfolding bind_recursive validate
  bind_struct S body fs = after_json S (if is_empty body then (fs, none) else unmarshal body fs)

  abbrev to_struct : StructFields × Option Error → BindTarget × Option Error
  to_struct (fs, err) = (struct_at fs, err)

  unfoldable pub bind : Source → Bytes → BindTarget → BindTarget × Option Error
  unfolding bind_struct
  bind S body no_pointer = (no_pointer, some (failure (codes "bind: v must be a non-nil pointer")))
  bind S body no_struct = (no_struct, some (failure (codes "bind: v must be a pointer to struct")))
  bind S body (struct_at fs) = to_struct (bind_struct S body fs)
