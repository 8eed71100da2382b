-- ===== src/Validation/Rules/Meaning.antt =====
-- When a struct obeys its rules, said without the code.
use goichi.Prelude.{
  ℕ, ◌≤◌, ◌≡◌, Bool, true, false, List, [], ◌∷◌, length, drop, leb, ◌||◌, ◌&&◌, if◌then◌else◌,
}
use goichi.Prelude.Text.{Bytes, codes, bytes_eq, split, trim_space}
use goichi.Prelude.Int.{ℤ, pos, negsuc}
use goichi.Middleware.Body.{is_prefix}
use goichi.Validation.Reflect.{
  FieldValue, string_value, int_value, float_value, items_value, struct_value, StructFields,
  no_fields, field, is_zero,
}
use goichi.Validation.Rules.{Matching, email_regex, bound_of}

-- A rule as it is written in a tag.
pub data Rule : Type 0 where
  required email numeric alpha unknown : Rule
  at_least_of at_most_of : ℤ → Rule

abbrev pub bounded : Bytes → Rule
bounded rule =
    if is_prefix (codes "min=") rule
    then at_least_of (bound_of (drop 4 rule))
    else if is_prefix (codes "max=") rule
    then at_most_of (bound_of (drop 4 rule))
    else unknown

abbrev pub rule_of : Bytes → Rule
rule_of rule =
    if bytes_eq rule (codes "required")
    then required
    else if bytes_eq rule (codes "email")
    then email
    else if bytes_eq rule (codes "numeric")
    then numeric
    else if bytes_eq rule (codes "alpha")
    then alpha
    else bounded rule

infix 50 ◌≤ℤ◌
abbrev pub ◌≤ℤ◌ : ℤ → ℤ → Type 0
pos m ≤ℤ pos n = m ≤ n
pos m ≤ℤ negsuc n = ⊥
negsuc m ≤ℤ pos n = Unit
negsuc m ≤ℤ negsuc n = n ≤ m

abbrev pub Every : (ℕ → Type 0) → Bytes → Type 0
Every P [] = Unit
Every P (c ∷ s) = P c × Every P s

abbrev pub IsDigit : ℕ → Type 0
IsDigit c = (b'0' ≤ c) × (c ≤ b'9')

abbrev pub between : ℕ → ℕ → ℕ → Bool
between a b c = leb a c && leb c b

abbrev pub IsLetter : ℕ → Type 0
IsLetter c = (between b'a' b'z' c || between b'A' b'Z' c) ≡ true

abbrev pub OnString : (Bytes → Type 0) → FieldValue → Type 0
OnString P (string_value s) = P s
OnString P _ = Unit

module _ (M : Matching) where
  -- An empty string passes for an e-mail address.
  abbrev pub IsEmail : Bytes → Type 0
  IsEmail [] = Unit
  IsEmail (c ∷ s) = (length (c ∷ s) ≤ 254) × (M.match_string email_regex (c ∷ s) ≡ true)

  -- What a bound is about: the length of a string or a collection in bytes or items, a signed integer, or
  -- the integer part of a float. Nothing else has bounds.
  abbrev pub OnMeasure : (ℤ → Type 0) → FieldValue → Type 0
  OnMeasure P (string_value s) = P (pos (length s))
  OnMeasure P (int_value w z) = P z
  OnMeasure P (float_value w bits) = P (M.to_int64 bits)
  OnMeasure P (items_value n zero_value) = P (pos n)
  OnMeasure P _ = Unit

  abbrev pub Obeys : Rule → FieldValue → Type 0
  Obeys required v = is_zero v ≡ false
  Obeys email v = OnString IsEmail v
  Obeys numeric v = OnString (Every IsDigit) v
  Obeys alpha v = OnString (Every IsLetter) v
  Obeys (at_least_of m) v = OnMeasure (λ z. m ≤ℤ z) v
  Obeys (at_most_of m) v = OnMeasure (λ z. z ≤ℤ m) v
  Obeys unknown v = Unit

  abbrev pub ObeysAll : List Bytes → FieldValue → Type 0
  ObeysAll [] v = Unit
  ObeysAll (rule ∷ rules) v = Obeys (rule_of (trim_space rule)) v × ObeysAll rules v

  abbrev pub ObeysTag : Bytes → FieldValue → Type 0
  ObeysTag [] v = Unit
  ObeysTag (c ∷ tag) v = ObeysAll (split b',' (c ∷ tag)) v

  -- Every field obeys the rules of its tag, those of embedded structs included.
  abbrev pub IsValid : StructFields → Type 0
  IsValid no_fields = Unit
  IsValid (field tags can_set true (struct_value inner) fs) = IsValid inner × IsValid fs
  IsValid (field tags can_set anonymous v fs) = ObeysTag tags.validate v × IsValid fs
