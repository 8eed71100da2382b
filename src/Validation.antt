-- ===== src/Validation.antt =====
-- core/types.go: the rules of validation that read or bound a value. A string is its bytes: a rune
-- outside ASCII is no digit and no letter, and neither are its bytes.
pub mod Numbers
pub mod Reflect
pub mod Rules
pub mod Binding
mod Tests
use goichi.Prelude.{
  ℕ, ◌+◌, ◌-◌, ◌*◌, ◌%◌, ◌^◌, Bool, true, false, not, ◌&&◌, ◌||◌, List, [], ◌∷◌, leb, ltb,
  if◌then◌else◌, all, length,
}
use goichi.Prelude.Text.{Bytes}
use goichi.Prelude.Int.{ℤ, pos, negsuc, positive_or, less}

abbrev pub is_digit : ℕ → Bool
is_digit c = leb b'0' c && leb c b'9'

unfoldable pub is_numeric : Bytes → Bool
is_numeric s = all is_digit s

unfoldable pub is_alpha : Bytes → Bool
is_alpha s = all (λ c. (leb b'a' c && leb c b'z') || (leb b'A' c && leb c b'Z')) s

-- The int64 by its residue.
unfoldable pub parse_from : ℕ → Bytes → ℕ
parse_from n [] = n
parse_from n (c ∷ s) = parse_from (if is_digit c then (n * 10 + (c - b'0')) % 2 ^ 64 else n) s

unfoldable pub parse_int_rule : Bytes → ℕ
unfolding parse_from
parse_int_rule s = parse_from 0 s

-- A field by its kind: the length of a string, an integer, the integer part of a float, the number of
-- items, or a kind that has no bounds.
pub data Field : Type 0 where
  string_of items_of : ℕ → Field
  int_of float_of : ℤ → Field
  other : Field

pub data Complaint : Type 0 where
  none_found : Complaint
  too_short too_small too_few too_long too_large too_many : Complaint

unfoldable pub check_min : Field → ℤ → Complaint
check_min (string_of n) m = if less (pos n) m then too_short else none_found
check_min (int_of z) m = if less z m then too_small else none_found
check_min (float_of z) m = if less z m then too_small else none_found
check_min (items_of n) m = if less (pos n) m then too_few else none_found
check_min other m = none_found

unfoldable pub check_max : Field → ℤ → Complaint
check_max (string_of n) m = if less m (pos n) then too_long else none_found
check_max (int_of z) m = if less m z then too_large else none_found
check_max (float_of z) m = if less m z then too_large else none_found
check_max (items_of n) m = if less m (pos n) then too_many else none_found
check_max other m = none_found

pub record Pagination : Type 0 where
  pub page : ℤ
  pub per_page : ℤ

abbrev pub set_page_defaults : Pagination → Pagination
set_page_defaults p = record {
  page = pos (positive_or 1 p.page);
  per_page = pos (positive_or 10 p.per_page);
}
