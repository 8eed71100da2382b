-- ===== src/OpenApi/Models.antt =====
-- openapi/generator.go: the walk over a model by reflection for its schema and its example.
pub mod Listing
pub mod Params
use goichi.Prelude.{
  Bool, true, false, not, ◌&&◌, ◌||◌, Option, none, some, List, [], ◌∷◌, ◌++◌, ◌==◌, map,
  if◌then◌else◌, is_empty,
}
use goichi.Prelude.Text.{Bytes, codes, bytes_eq, split, lower}
use goichi.Http.{Value, join}
use goichi.Router.Dispatch.{contains}
use goichi.Middleware.Body.{has_substr}
use goichi.Validation.Reflect.{Tags}
use goichi.OpenApi.{Reflection}

pub record FieldInfo : Type 0 where
  pub tags : Tags
  pub desc : Bytes
  pub anonymous : Bool

-- A value with its type, as reflection shows it: a string with the name of its type, an integer and a
-- float by the texts of %d and %g, a nil pointer and a slice by the zero value of the type that they are
-- of, and a map by whether its keys are strings, the zero value of its items, and its entries in the order
-- of the iteration.
mutual
  pub data Shown : Type 0 where
    string_shown : (type_name : Bytes) (value : Bytes) → Shown
    bool_shown : Bool → Shown
    int_shown : Bytes → Shown
    float_shown : Bytes → Shown
    nil_pointer : Shown → Shown
    pointer : Shown → Shown
    slice_shown : Shown → Shown
    map_shown : Bool → Shown → Entries → Shown
    struct_shown : ShownFields → Shown
    other_shown : Shown

  pub data Entries : Type 0 where
    no_entries : Entries
    entry : Bytes → Shown → Entries → Entries

  pub data ShownFields : Type 0 where
    no_fields : ShownFields
    shown_field : FieldInfo → Shown → ShownFields → ShownFields

-- %q, and reflect.TypeOf with reflect.ValueOf.
pub record Go : Type 0 where
  pub quote : Bytes → Bytes
  pub show : Value → Shown

abbrev bullet : Bytes
bullet = 226 ∷ 128 ∷ 162 ∷ []

abbrev bullets : Bytes
bullets = bullet ++ bullet ++ bullet ++ bullet ++ bullet ++ bullet ++ bullet ++ bullet

unfoldable pub example_string_for : Bytes → Bytes
example_string_for name =
    if bytes_eq name (codes "email")
    then codes "user@example.com"
    else if bytes_eq name (codes "name")
    then codes "kurosaki ichigo"
    else if bytes_eq name (codes "password")
    then bullets
    else if bytes_eq name (codes "phone")
    then codes "+66812345678"
    else if bytes_eq name (codes "url")
        || (bytes_eq name (codes "image") || bytes_eq name (codes "avatar"))
    then codes "https://example.com/image.png"
    else if bytes_eq name (codes "token")
    then codes "eyJhbGciOiJIUzI1NiIsInR5cCI6IkpXVCJ9..."
    else codes "string"

-- strings.Split(s, ",")[0]
abbrev pub first_part : List Bytes → Bytes
first_part [] = []
first_part (s ∷ parts) = s

abbrev pub json_name : FieldInfo → Bytes
json_name f = if is_empty f.tags.json then f.tags.name else first_part (split b',' f.tags.json)

abbrev pub is_required : FieldInfo → Bool
is_required f = has_substr f.tags.validate (codes "required")

-- A field that the loop passes over: one that the request carries elsewhere, or that JSON leaves out.
abbrev pub is_passed_over : FieldInfo → Bool
is_passed_over f =
    not (is_empty f.tags.header)
    || (not (is_empty f.tags.query)
        || (not (is_empty f.tags.param) || bytes_eq (json_name f) (codes "-")))

abbrev pub is_embedded : FieldInfo → Shown → Bool
is_embedded f (struct_shown fs) = f.anonymous
is_embedded f _ = false

-- schemaProps, exampleProps and required.
pub record Props : Type 0 where
  pub schemas : List Bytes
  pub examples : List Bytes
  pub required : List Bytes

abbrev pub no_props : Props
no_props = record { schemas = []; examples = []; required = [] }

abbrev pub bool_text : Bool → Bytes
bool_text true = codes "true"
bool_text false = codes "false"

module _ (G : Go) where
  abbrev pub desc_part : Bytes → Bytes
  desc_part [] = []
  desc_part (c ∷ desc) = codes ",\"description\":" ++ G.quote (c ∷ desc)

  -- {"type":"<name>"<description>}
  abbrev pub type_schema : Bytes → Bytes → Bytes
  type_schema name desc =
      codes "{\"type\":\"" ++ (name ++ (codes "\"" ++ (desc_part desc ++ codes "}")))

  abbrev pub property_text : Bytes → Bytes → Bytes
  property_text name text = G.quote name ++ (codes ":" ++ text)

  abbrev pub required_part : List Bytes → Bytes
  required_part [] = []
  required_part (r ∷ rs) = codes ",\"required\":[" ++ (join (codes ",") (r ∷ rs) ++ codes "]")

  -- The texts of reflectStruct.
  abbrev pub struct_texts : Props → Bytes × Bytes
  struct_texts props = (
    codes "{\"type\":\"object\",\"properties\":{"
        ++ (join (codes ",") props.schemas
            ++ (codes "}" ++ (required_part props.required ++ codes "}"))),
    codes "{" ++ (join (codes ",") props.examples ++ codes "}"),
  )

  -- One turn of the loop, for a field that is not embedded.
  abbrev pub add_field : FieldInfo → Bytes × Bytes → Props → Props
  add_field f (schema, example) props = if is_passed_over f then props else record {
    schemas = props.schemas ++ property_text (json_name f) schema ∷ [];
    examples = props.examples ++ property_text (json_name f) example ∷ [];
    required =
        if is_required f then props.required ++ G.quote (json_name f) ∷ [] else props.required;
  }

  abbrev pub string_example : Bytes → Bytes → Bytes
  string_example type_name [] = example_string_for (map lower type_name)
  string_example type_name (c ∷ value) = c ∷ value

  abbrev pub map_example : Bool → Bytes → List Bytes → Entries → Bytes
  map_example string_keys item parts no_entries = codes "{\"key\":" ++ (item ++ codes "}")
  map_example string_keys item parts (entry k v rest) =
      codes "{" ++ (join (codes ",") (if string_keys then parts else []) ++ codes "}")

  abbrev pub text_schema : Bytes → Bytes × Bytes
  text_schema desc = (type_schema (codes "string") desc, codes "\"\"")

  -- The first argument of reflectField says that a pointer was followed: of two pointers only the outer
  -- one is.
  unfoldable mutual
    pub reflect_field : Bool → Shown → Bytes → Bytes × Bytes
    reflect_field followed (string_shown type_name value) desc =
        (type_schema (codes "string") desc, G.quote (string_example type_name value))
    reflect_field followed (bool_shown b) desc = (type_schema (codes "boolean") desc, bool_text b)
    reflect_field followed (int_shown digits) desc = (type_schema (codes "integer") desc, digits)
    reflect_field followed (float_shown digits) desc = (type_schema (codes "number") desc, digits)
    reflect_field false (nil_pointer zero_value) desc = reflect_field true zero_value desc
    reflect_field true (nil_pointer zero_value) desc = text_schema desc
    reflect_field false (pointer v) desc = reflect_field true v desc
    reflect_field true (pointer v) desc = text_schema desc
    reflect_field followed (slice_shown item) desc =
        let (item_schema, item_example) = reflect_field false item [] in
        (
          codes "{\"type\":\"array\",\"items\":" ++ (item_schema ++ (desc_part desc ++ codes "}")),
          codes "[" ++ (item_example ++ codes "]"),
        )
    reflect_field followed (map_shown string_keys item entries) desc =
        let (item_schema, item_example) = reflect_field false item [] in
        (
          codes "{\"type\":\"object\",\"additionalProperties\":"
              ++ (item_schema ++ (desc_part desc ++ codes "}")),
          map_example string_keys item_example (entry_texts entries) entries,
        )
    reflect_field followed (struct_shown fs) desc =
        struct_texts (reflect_struct_recursive fs no_props)
    reflect_field followed other_shown desc = text_schema desc

    pub entry_texts : Entries → List Bytes
    entry_texts no_entries = []
    entry_texts (entry k v rest) = property_text k (reflect_field false v []).1 ∷ entry_texts rest

    pub reflect_struct_recursive : ShownFields → Props → Props
    reflect_struct_recursive no_fields props = props
    reflect_struct_recursive (shown_field f v rest) props =
        let inner = reflect_embedded v props in
        let own = add_field f (reflect_field false v f.desc) props in
        reflect_struct_recursive rest (if is_embedded f v then inner else own)

    pub reflect_embedded : Shown → Props → Props
    reflect_embedded (struct_shown fs) props = reflect_struct_recursive fs props
    reflect_embedded _ props = props

  unfoldable pub reflect_model : Option Value → Bytes × Bytes
  unfolding reflect_field reflect_struct_recursive
  reflect_model none = (codes "{\"type\":\"object\"}", codes "{}")
  reflect_model (some model) = reflect_field false (G.show model) []
