-- ===== src/Validation/Binding/Texts.antt =====
-- What the texts of a request make of the fields of a struct, and when every field can hold its text.
use goichi.Prelude.{
  subst, sym, ap, ◌∙◌, not, ◌%◌, ◌^◌, ◌≡◌, refl, ◌↔◌, Bool, true, false, Option, none, some, arith,
  is_empty, is_some, if◌then◌else◌, [], ◌∷◌,
}
use goichi.Prelude.Text.{Bytes, codes}
use goichi.Validation.Reflect.{
  Tags, FieldValue, string_value, int_value, uint_value, float_value, bool_value, items_value,
  struct_value, other_value, StructFields, no_fields, field, residue, signed,
}
use goichi.Validation.Binding.{
  Readers, Source, setting, set_int, set_uint, set_float, set_field, raw_of, after_setting,
  bind_field, next_field, embedded, bind_recursive,
}

module _ (P : Readers) where
  -- A text is a number or a truth value where the field holds one. An empty text counts as none.
  abbrev pub CanHold : FieldValue → Bytes → Type 0
  CanHold (int_value w z) (c ∷ raw) = is_some (P.parse_int (c ∷ raw)) ≡ true
  CanHold (uint_value w n) (c ∷ raw) = is_some (P.parse_uint (c ∷ raw)) ≡ true
  CanHold (float_value w bits) (c ∷ raw) = is_some (P.parse_float (c ∷ raw)) ≡ true
  CanHold (bool_value b) (c ∷ raw) = is_some (P.parse_bool (c ∷ raw)) ≡ true
  CanHold _ _ = Unit

  -- What a field holds of a text: the text, or the number or truth value that it is, cut to the width of an
  -- integer; what it held where the text is empty or is none.
  abbrev held : FieldValue → Bytes → FieldValue
  held (string_value s) (c ∷ raw) = string_value (c ∷ raw)
  held (int_value w z) (c ∷ raw) = elim (P.parse_int (c ∷ raw)) [
    | none ↦ int_value w z
    | some n ↦ int_value w (signed w (residue w n))
  ]
  held (uint_value w m) (c ∷ raw) = elim (P.parse_uint (c ∷ raw)) [
    | none ↦ uint_value w m
    | some n ↦ uint_value w (n % 2 ^ w)
  ]
  held (float_value w bits) (c ∷ raw) = elim (P.parse_float (c ∷ raw)) [
    | none ↦ float_value w bits
    | some x ↦ float_value w (P.rounded w x)
  ]
  held (bool_value b) (c ∷ raw) = elim (P.parse_bool (c ∷ raw)) [
    | none ↦ bool_value b
    | some b' ↦ bool_value b'
  ]
  held v _ = v

  module _ (S : Source) where
    -- The text that the request has for a field: by its query tag, else by its param tag, else by its
    -- header tag.
    abbrev sent_by : (query param header : Bytes) → Bytes
    sent_by (c ∷ query) param header = S.query (c ∷ query)
    sent_by [] (c ∷ param) header = S.param (c ∷ param)
    sent_by [] [] (c ∷ header) = S.header (c ∷ header)
    sent_by [] [] [] = []

    abbrev pub sent : Tags → Bytes
    sent t = sent_by t.query t.param t.header

    -- Every field that can be set can hold the text that the request has for it.
    abbrev pub IsReadable : StructFields → Type 0
    IsReadable no_fields = Unit
    IsReadable (field t false a v fs) = IsReadable fs
    IsReadable (field t true true (struct_value inner) fs) = IsReadable inner × IsReadable fs
    IsReadable (field t true a v fs) = CanHold v (sent t) × IsReadable fs

    -- The struct with what its fields hold of these texts.
    abbrev pub with_texts : StructFields → StructFields
    with_texts no_fields = no_fields
    with_texts (field t false a v fs) = field t false a v (with_texts fs)
    with_texts (field t true true (struct_value inner) fs) =
        field t true true (struct_value (with_texts inner)) (with_texts fs)
    with_texts (field t true a v fs) = field t true a (held v (sent t)) (with_texts fs)

    raw_of-sent : (t : Tags) → raw_of P S t ≡ sent t
    unfolding raw_of
    raw_of-sent t = by_tags t.query t.param t.header
      where
        by_tags :
            (q p h : Bytes)
            → (if not (is_empty q)
                then S.query q
                else if not (is_empty p)
                then S.param p
                else if not (is_empty h)
                then S.header h
                else [])
              ≡ sent_by q p h
        by_tags (c ∷ q) p h = refl
        by_tags [] (c ∷ p) h = refl
        by_tags [] [] (c ∷ h) = refl
        by_tags [] [] [] = refl

    setting-none_iff :
        {A : Type 0} (t : Tags) (v : FieldValue) (kind raw : Bytes) (make : A → FieldValue)
        (o : Option A)
        → ((after_setting P t v (setting P kind raw make o)).1 ≡ none) ↔ (is_some o ≡ true)
    setting-none_iff t v kind raw make none = ground arith
    setting-none_iff t v kind raw make (some a) = ground arith

    bind_text-none_iff :
        (t : Tags) (v : FieldValue) (raw : Bytes)
        → ((if is_empty raw then (v, none) else after_setting P t v (set_field P v raw)).1 ≡ none)
          ↔ CanHold v raw
    unfolding set_field
    bind_text-none_iff t (int_value w z) (c ∷ raw) =
        setting-none_iff t (int_value w z) (codes "integer") (c ∷ raw) (set_int w)
          (P.parse_int (c ∷ raw))
    bind_text-none_iff t (uint_value w n) (c ∷ raw) =
        setting-none_iff t (uint_value w n) (codes "unsigned integer") (c ∷ raw) (set_uint w)
          (P.parse_uint (c ∷ raw))
    bind_text-none_iff t (float_value w bits) (c ∷ raw) =
        setting-none_iff t (float_value w bits) (codes "number") (c ∷ raw) (set_float P w)
          (P.parse_float (c ∷ raw))
    bind_text-none_iff t (bool_value b) (c ∷ raw) =
        setting-none_iff t (bool_value b) (codes "boolean") (c ∷ raw) bool_value
          (P.parse_bool (c ∷ raw))
    bind_text-none_iff t (string_value s) raw = ground arith
    bind_text-none_iff t (items_value n z) raw = ground arith
    bind_text-none_iff t (struct_value fs) raw = ground arith
    bind_text-none_iff t (other_value z) raw = ground arith
    bind_text-none_iff t (int_value w z) [] = (λ _. tt, λ _. refl)
    bind_text-none_iff t v [] = (λ _. tt, λ _. refl)

    next_field-none_iff :
        {Q R : Type 0} (t : Tags) (s a : Bool) (r : FieldValue × Option Bytes) (fs : StructFields)
        (rest : StructFields × Option Bytes)
        → (r.1 ≡ none) ↔ Q
        → (rest.1 ≡ none) ↔ R
        → ((next_field P t s a r fs rest).1 ≡ none) ↔ (Q × R)
    next_field-none_iff t s a (v, none) fs (fs', err) f g = (λ h. (f.0 refl, g.0 h), λ h. g.1 h.1)
    next_field-none_iff t s a (v, some e) fs rest f g = (λ h. cc, λ h. f.1 h.0)

    pub bind_recursive-none_iff :
        (fs : StructFields) → ((bind_recursive P S fs).1 ≡ none) ↔ IsReadable fs
    unfolding bind_recursive bind_field
    bind_recursive-none_iff no_fields = (λ _. tt, λ _. refl)
    bind_recursive-none_iff (field t false a v fs) = bind_recursive-none_iff fs
    bind_recursive-none_iff (field t true true (struct_value inner) fs) =
        next_field-none_iff t true true (embedded P (bind_recursive P S inner)) fs
          (bind_recursive P S fs) (bind_recursive-none_iff inner) (bind_recursive-none_iff fs)
    bind_recursive-none_iff (field t true a v fs) =
        next_field-none_iff t true a _ fs (bind_recursive P S fs)
          (subst
            (λ raw.
              ((if is_empty raw then (v, none) else after_setting P t v (set_field P v raw)).1
                ≡ none)
              ↔ CanHold v (sent t))
            (sym (raw_of-sent t)) (bind_text-none_iff t v (sent t)))
          (bind_recursive-none_iff fs)

    setting-held :
        {A : Type 0} (t : Tags) (v : FieldValue) (kind raw : Bytes) (make : A → FieldValue)
        (o : Option A)
        → (after_setting P t v (setting P kind raw make o)).1 ≡ none
        → (after_setting P t v (setting P kind raw make o)).0
          ≡ elim o as (λ _. FieldValue) [ none ↦ v | some a ↦ make a ]
    setting-held t v kind raw make none e = cc
    setting-held t v kind raw make (some a) e = refl

    bind_text-held :
        (t : Tags) (v : FieldValue) (raw : Bytes)
        → (if is_empty raw then (v, none) else after_setting P t v (set_field P v raw)).1 ≡ none
        → (if is_empty raw then (v, none) else after_setting P t v (set_field P v raw)).0
          ≡ held v raw
    unfolding set_field
    bind_text-held t (int_value w z) (c ∷ raw) e =
        setting-held t (int_value w z) (codes "integer") (c ∷ raw) (set_int w)
          (P.parse_int (c ∷ raw)) e
    bind_text-held t (uint_value w n) (c ∷ raw) e =
        setting-held t (uint_value w n) (codes "unsigned integer") (c ∷ raw) (set_uint w)
          (P.parse_uint (c ∷ raw)) e
    bind_text-held t (float_value w bits) (c ∷ raw) e =
        setting-held t (float_value w bits) (codes "number") (c ∷ raw) (set_float P w)
          (P.parse_float (c ∷ raw)) e
    bind_text-held t (bool_value b) (c ∷ raw) e =
        setting-held t (bool_value b) (codes "boolean") (c ∷ raw) bool_value
          (P.parse_bool (c ∷ raw)) e
    bind_text-held t (string_value s) (c ∷ raw) e = refl
    bind_text-held t (items_value n z) (c ∷ raw) e = refl
    bind_text-held t (struct_value fs) (c ∷ raw) e = refl
    bind_text-held t (other_value z) (c ∷ raw) e = refl
    bind_text-held t (string_value s) [] e = refl
    bind_text-held t (int_value w z) [] e = refl
    bind_text-held t (uint_value w n) [] e = refl
    bind_text-held t (float_value w bits) [] e = refl
    bind_text-held t (bool_value b) [] e = refl
    bind_text-held t (items_value n z) [] e = refl
    bind_text-held t (struct_value fs) [] e = refl
    bind_text-held t (other_value z) [] e = refl

    next_field-held :
        (t : Tags) (s a : Bool) (r : FieldValue × Option Bytes) (fs : StructFields)
        (rest : StructFields × Option Bytes) (v : FieldValue) (gs : StructFields)
        → (r.1 ≡ none → r.0 ≡ v)
        → (rest.1 ≡ none → rest.0 ≡ gs)
        → (next_field P t s a r fs rest).1 ≡ none
        → (next_field P t s a r fs rest).0 ≡ field t s a v gs
    next_field-held t s a (v', none) fs (fs', err) v gs f g e =
        ap (λ x. field t s a x fs') (f refl) ∙ ap (field t s a v) (g e)
    next_field-held t s a (v', some err) fs rest v gs f g e = cc e

    pub bind_recursive-with_texts :
        (fs : StructFields)
        → (bind_recursive P S fs).1 ≡ none
        → (bind_recursive P S fs).0 ≡ with_texts fs
    unfolding bind_recursive bind_field
    bind_recursive-with_texts no_fields e = refl
    bind_recursive-with_texts (field t false a v fs) e =
        ap (field t false a v) (bind_recursive-with_texts fs e)
    bind_recursive-with_texts (field t true true (struct_value inner) fs) e =
        next_field-held t true true (embedded P (bind_recursive P S inner)) fs
          (bind_recursive P S fs) (struct_value (with_texts inner)) (with_texts fs)
          (λ h. ap struct_value (bind_recursive-with_texts inner h)) (bind_recursive-with_texts fs)
          e
    bind_recursive-with_texts (field t true a v fs) e =
        next_field-held t true a _ fs (bind_recursive P S fs) (held v (sent t)) (with_texts fs)
          (λ h. bind_text-held t v (raw_of P S t) h ∙ ap (held v) (raw_of-sent t))
          (bind_recursive-with_texts fs) e
