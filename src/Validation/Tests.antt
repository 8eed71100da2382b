-- ===== src/Validation/Tests.antt =====
-- A struct with rules and a request for it, at which the theorems on numbers, rules and binding hold.
use goichi.Prelude.{◌≡◌, refl, Option, none, some, true, false, [], ◌∷◌, if◌then◌else◌, arith}
use goichi.Prelude.Text.{Bytes, codes, bytes_eq}
use goichi.Prelude.Int.{ℤ, pos}
use goichi.Http.{validation}
use goichi.Middleware.Cors.{itoa}
use goichi.Validation.{parse_int_rule}
use goichi.Validation.Numbers.{parse_int_rule-itoa}
use goichi.Validation.Reflect.{
  Tags, string_value, int_value, struct_value, StructFields, no_fields, field,
}
use goichi.Validation.Rules.{Matching, validate}
use goichi.Validation.Binding.{Readers, Source, bind_recursive, bind_struct}

parse_int_rule-itoa_example : parse_int_rule (itoa (pos 86400)) ≡ 86400
parse_int_rule-itoa_example = parse_int_rule-itoa 86400 (omega arith)

abbrev matching : Matching
matching = record { match_string = λ p s. true; to_int64 = λ bits. pos 0 }

-- A reader of one number, where no other is written.
abbrev readers : Readers
readers = record {
  parse_int = λ s. if bytes_eq s (codes "300") then some (pos 300) else none;
  parse_uint = λ s. none;
  parse_float = λ s. none;
  parse_bool = λ s. none;
  rounded = λ w bits. bits;
  quoted = λ s. s;
}

abbrev source : Source
source = record {
  query = λ k. if bytes_eq k (codes "page") then codes "300" else [];
  param = λ k. codes "ann";
  header = λ k. [];
}

abbrev tags : Bytes → Bytes → Bytes → Bytes → Tags
tags name query param rules = record {
  name = name;
  json = [];
  query = query;
  param = param;
  header = [];
  validate = rules;
}

-- An embedded page of eight bits and a name.
abbrev listing : ℤ → Bytes → StructFields
listing page name =
    field (tags (codes "Paging") [] [] []) true true
      (struct_value (
        field (tags (codes "Page") (codes "page") [] (codes "min=1")) true false (int_value 8 page)
          no_fields))
      (field (tags (codes "Name") [] (codes "name") (codes "required, alpha,max=3")) true false
        (string_value name) no_fields)

-- 300 is 44 in eight bits.
bind_listing :
    bind_recursive readers source (listing (pos 0) []) ≡ (listing (pos 44) (codes "ann"), none)
unfolding bind_recursive
bind_listing = refl

validate_listing :
    validate matching (listing (pos 0) (codes "ann7"))
    ≡ some (
        validation (
          codes "page must be >= 1"
          ∷ codes "name must contain only letters"
          ∷ codes "name must be at most 3 characters"
          ∷ []))
unfolding validate itoa
validate_listing = refl

abbrev no_json : Bytes → StructFields → StructFields × Option Bytes
no_json body fs = (fs, some (codes "EOF"))

bind_listing_succeeds :
    bind_struct readers matching no_json none source [] (listing (pos 0) [])
    ≡ (listing (pos 44) (codes "ann"), none)
unfolding bind_struct
bind_listing_succeeds = refl
