-- ===== src/OpenApi/Models/Listing.antt =====
-- Which fields of a struct the document lists.
use goichi.Prelude.{
  ℕ, ◌≡◌, ◌≤◌, refl, Bool, true, false, not, ◌&&◌, ◌||◌, ◌==◌, length, is_empty, List, [], ◌∷◌,
  ◌++◌, map, if◌then◌else◌, arith, ◌∙◌, ap, Bool-cases, inl, inr,
}
use mathlib.Core.List.{append-nil, append_assoc}
use goichi.Prelude.Text.{Bytes, codes, bytes_eq, bytes_eq_iff, split, on_first}
use goichi.Middleware.Body.{is_prefix, find_substr, has_substr}
use goichi.OpenApi.Models.{
  Go, FieldInfo, Shown, ShownFields, struct_shown, no_fields, shown_field, string_shown, bool_shown,
  int_shown, float_shown, nil_pointer, pointer, slice_shown, map_shown, other_shown, Props,
  first_part, is_embedded, is_passed_over, is_required, json_name, property_text, add_field,
  reflect_field, reflect_struct_recursive, reflect_embedded,
}

-- The JSON name of a field: what its tag says before the first comma, or the field's own name.
abbrev before_comma : Bytes → Bytes
before_comma [] = []
before_comma (c ∷ s) = if c == b',' then [] else c ∷ before_comma s

abbrev pub name_of : FieldInfo → Bytes
name_of f = if is_empty f.tags.json then f.tags.name else before_comma f.tags.json

-- The body carries a field that has no tag for a header, a query or a parameter, and that JSON does not
-- leave out.
abbrev pub is_in_body : FieldInfo → Bool
is_in_body f =
    is_empty f.tags.header
    && (is_empty f.tags.query && (is_empty f.tags.param && not (bytes_eq (name_of f) (codes "-"))))

-- Some part of a text is "required".
abbrev has_required : Bytes → Bool
has_required [] = false
has_required (c ∷ s) = is_prefix (codes "required") (c ∷ s) || has_required s

abbrev pub says_required : FieldInfo → Bool
says_required f = has_required f.tags.validate

-- A struct that is embedded by value.
abbrev pub embeds : FieldInfo → Shown → Bool
embeds f (struct_shown fs) = f.anonymous
embeds f _ = false

-- The fields of a struct in their order, with those of an embedded struct in its place, without those
-- that the body does not carry.
unfoldable mutual
  pub listed : ShownFields → List (FieldInfo × Shown)
  listed no_fields = []
  listed (shown_field f v rest) =
      let own = if is_in_body f then (f, v) ∷ [] else [] in
      (if embeds f v then listed_in v else own) ++ listed rest

  pub listed_in : Shown → List (FieldInfo × Shown)
  listed_in (struct_shown fs) = listed fs
  listed_in _ = []

unfoldable pub required_of : List (FieldInfo × Shown) → List (FieldInfo × Shown)
required_of [] = []
required_of ((f, v) ∷ rest) =
    if says_required f then (f, v) ∷ required_of rest else required_of rest

first_part-split : (s : Bytes) → first_part (split b',' s) ≡ before_comma s
unfolding split
first_part-split [] = refl
first_part-split (c ∷ s) = elim (Bool-cases (c == b',')) [
  | inl e ↦ rw e refl
  | inr e ↦ rw e (first_part-on_first c (split b',' s) ∙ ap (◌∷◌ c) (first_part-split s))
]
  where
    first_part-on_first :
        (c : ℕ) (parts : List Bytes) → first_part (on_first c parts) ≡ c ∷ first_part parts
    first_part-on_first c [] = refl
    first_part-on_first c (p ∷ parts) = refl

json_name-eq : (f : FieldInfo) → json_name f ≡ name_of f
json_name-eq f =
    ap (λ s. if is_empty f.tags.json then f.tags.name else s) (first_part-split f.tags.json)

is_passed_over-eq : (f : FieldInfo) → is_passed_over f ≡ not (is_in_body f)
is_passed_over-eq f =
    ap
      (λ s.
        not (is_empty f.tags.header)
        || (not (is_empty f.tags.query) || (not (is_empty f.tags.param) || bytes_eq s (codes "-"))))
      (json_name-eq f)
    ∙ negated (is_empty f.tags.header) (is_empty f.tags.query) (is_empty f.tags.param) _
  where
    negated : (a b c d : Bool) → (not a || (not b || (not c || d))) ≡ not (a && (b && (c && not d)))
    negated a b c d = ground arith

find_substr-required : (s : Bytes) → find_substr s (codes "required") ≡ has_required s
unfolding find_substr
find_substr-required [] = refl
find_substr-required (c ∷ s) =
    ap (λ b. is_prefix (codes "required") (c ∷ s) || b) (find_substr-required s)

is_prefix-length : (p s : Bytes) → is_prefix p s ≡ true → length p ≤ length s
is_prefix-length [] s h = omega arith
is_prefix-length (x ∷ p) [] h = cc h
is_prefix-length (x ∷ p) (y ∷ s) h = ground (arith, is_prefix-length p s)

has_required-length : (s : Bytes) → has_required s ≡ true → 8 ≤ length s
has_required-length [] h = cc h
has_required-length (c ∷ s) h =
    ground (arith, has_required-length s, is_prefix-length (codes "required") (c ∷ s))

is_required-eq : (f : FieldInfo) → is_required f ≡ says_required f
unfolding has_substr
is_required-eq f =
    let s = f.tags.validate in
    let found = find_substr-required s in
    elim (Bool-cases (has_required s)) [
      | inl e ↦ ground (arith, found, e, has_required-length s e)
      | inr e ↦
          let differs : bytes_eq s (codes "required") ≡ false =
            elim (Bool-cases (bytes_eq s (codes "required"))) [
              | inl same ↦ cc (ap has_required ((bytes_eq_iff s (codes "required")).0 same), e)
              | inr other ↦ other
            ] in
          ground (arith, found, e, differs)
    ]

embeds-eq : (f : FieldInfo) (v : Shown) → is_embedded f v ≡ embeds f v
embeds-eq f (string_shown n s) = refl
embeds-eq f (bool_shown b) = refl
embeds-eq f (int_shown d) = refl
embeds-eq f (float_shown d) = refl
embeds-eq f (nil_pointer z) = refl
embeds-eq f (pointer v) = refl
embeds-eq f (slice_shown z) = refl
embeds-eq f (map_shown b z es) = refl
embeds-eq f (struct_shown fs) = refl
embeds-eq f other_shown = refl

required_of-append :
    (xs ys : List (FieldInfo × Shown)) → required_of (xs ++ ys) ≡ required_of xs ++ required_of ys
unfolding required_of
required_of-append [] ys = refl
required_of-append ((f, v) ∷ xs) ys = ground (arith, required_of-append xs ys)

map-append : {A B : Type 0} (f : A → B) (xs ys : List A) → map f (xs ++ ys) ≡ map f xs ++ map f ys
map-append f [] ys = refl
map-append f (x ∷ xs) ys = ap (◌∷◌ (f x)) (map-append f xs ys)

module _ (G : Go) where
  abbrev pub schema_line : FieldInfo × Shown → Bytes
  schema_line (f, v) = G.quote (name_of f) ++ (codes ":" ++ (reflect_field G false v f.desc).0)

  abbrev pub example_line : FieldInfo × Shown → Bytes
  example_line (f, v) = G.quote (name_of f) ++ (codes ":" ++ (reflect_field G false v f.desc).1)

  abbrev pub required_line : FieldInfo × Shown → Bytes
  required_line (f, v) = G.quote (name_of f)

  -- The three texts behind those that are there.
  abbrev with_fields : List (FieldInfo × Shown) → Props → Props
  with_fields xs props = record {
    schemas = props.schemas ++ map schema_line xs;
    examples = props.examples ++ map example_line xs;
    required = props.required ++ map required_line (required_of xs);
  }

  with_fields-append :
      (xs ys : List (FieldInfo × Shown)) (props : Props)
      → with_fields ys (with_fields xs props) ≡ with_fields (xs ++ ys) props
  with_fields-append xs ys props =
      rw
        (
          map-append schema_line xs ys,
          map-append example_line xs ys,
          required_of-append xs ys,
          map-append required_line (required_of xs) (required_of ys),
          append_assoc props.schemas (map schema_line xs) (map schema_line ys),
          append_assoc props.examples (map example_line xs) (map example_line ys),
          append_assoc props.required (map required_line (required_of xs))
              (map required_line (required_of ys)),
        )
        refl

  with_fields-nil : (props : Props) → props ≡ with_fields [] props
  unfolding required_of
  with_fields-nil props =
      rw (append-nil props.schemas, append-nil props.examples, append-nil props.required) refl

  own : FieldInfo → Shown → List (FieldInfo × Shown)
  own f v = if is_in_body f then (f, v) ∷ [] else []

  -- One turn of the loop, on the name that the field has.
  add_named :
      (f : FieldInfo) (v : Shown) (name : Bytes) (passed needed : Bool) (props : Props)
      → name ≡ name_of f
      → passed ≡ not (is_in_body f)
      → needed ≡ says_required f
      → (if passed then props else record {
        schemas = props.schemas ++ property_text G name (reflect_field G false v f.desc).0 ∷ [];
        examples = props.examples ++ property_text G name (reflect_field G false v f.desc).1 ∷ [];
        required = if needed then props.required ++ G.quote name ∷ [] else props.required;
      })
        ≡ with_fields (own f v) props
  unfolding required_of own
  add_named f v name passed needed props n p q = elim (Bool-cases (is_in_body f)) [
    | inr out ↦ rw (p, out) (with_fields-nil props)
    | inl carried ↦ elim (Bool-cases (says_required f)) [
      | inl k ↦ rw (n, p, q, carried, k) refl
      | inr k ↦ rw (n, p, q, carried, k, append-nil props.required) refl
    ]
  ]

  add_field-listed :
      (f : FieldInfo) (v : Shown) (props : Props)
      → add_field G f (reflect_field G false v f.desc) props ≡ with_fields (own f v) props
  add_field-listed f v props =
      add_named f v (json_name f) (is_passed_over f) (is_required f) props (json_name-eq f)
        (is_passed_over-eq f) (is_required-eq f)

  mutual
    unfolding reflect_struct_recursive reflect_embedded listed own

    pub reflect_struct_recursive-listed :
        (fs : ShownFields) (props : Props)
        → reflect_struct_recursive G fs props ≡ with_fields (listed fs) props
    reflect_struct_recursive-listed no_fields props = with_fields-nil props
    reflect_struct_recursive-listed (shown_field f v rest) props = elim (Bool-cases (embeds f v)) [
      | inl e ↦
          rw (embeds-eq f v, e)
            (ap (reflect_struct_recursive G rest) (reflect_embedded-listed v props)
              ∙ (reflect_struct_recursive-listed rest (with_fields (listed_in v) props)
                  ∙ with_fields-append (listed_in v) (listed rest) props))
      | inr e ↦
          rw (embeds-eq f v, e)
            (ap (reflect_struct_recursive G rest) (add_field-listed f v props)
              ∙ (reflect_struct_recursive-listed rest (with_fields (own f v) props)
                  ∙ with_fields-append (own f v) (listed rest) props))
    ]

    reflect_embedded-listed :
        (v : Shown) (props : Props) → reflect_embedded G v props ≡ with_fields (listed_in v) props
    reflect_embedded-listed (string_shown n s) props = with_fields-nil props
    reflect_embedded-listed (bool_shown b) props = with_fields-nil props
    reflect_embedded-listed (int_shown d) props = with_fields-nil props
    reflect_embedded-listed (float_shown d) props = with_fields-nil props
    reflect_embedded-listed (nil_pointer z) props = with_fields-nil props
    reflect_embedded-listed (pointer v) props = with_fields-nil props
    reflect_embedded-listed (slice_shown z) props = with_fields-nil props
    reflect_embedded-listed (map_shown b z es) props = with_fields-nil props
    reflect_embedded-listed (struct_shown fs) props = reflect_struct_recursive-listed fs props
    reflect_embedded-listed other_shown props = with_fields-nil props
