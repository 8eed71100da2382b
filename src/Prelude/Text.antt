-- ===== src/Prelude/Text.antt =====
-- Go strings as lists of bytes, with the operations of package strings that the code calls on them.
use Prim.Native.Nat.{ℕ, zero, suc, ◌+◌, ◌-◌}
use Prim.Native.Char.{code}
use Prim.Native.String.{String}
use mathlib.Core.Path.{◌≡◌, refl}
use mathlib.Core.Logic.{◌↔◌}
use mathlib.Core.Bool.{Bool, true, false, ◌&&◌, ◌||◌}
use mathlib.Core.List.{List, [], ◌∷◌}
use mathlib.Core.Option
use mathlib.Core.Option.{Option, none, some}
use native.Mathlib.Omega.{arith}
use goichi.Prelude.Tests.{leb, ◌==◌, if◌then◌else◌}

abbrev pub Bytes : Type 0
Bytes = List ℕ

-- The bytes of an ASCII literal.
abbrev pub codes : String → Bytes
codes String.[] = []
codes (String.◌∷◌ c s) = code c ∷ codes s

abbrev pub bytes_eq : Bytes → Bytes → Bool
bytes_eq [] [] = true
bytes_eq [] (y ∷ ys) = false
bytes_eq (x ∷ xs) [] = false
bytes_eq (x ∷ xs) (y ∷ ys) = x == y && bytes_eq xs ys

pub bytes_eq_iff : (xs ys : Bytes) → (bytes_eq xs ys ≡ true) ↔ (xs ≡ ys)
bytes_eq_iff [] [] = ground arith
bytes_eq_iff [] (y ∷ ys) = ground arith
bytes_eq_iff (x ∷ xs) [] = ground arith
bytes_eq_iff (x ∷ xs) (y ∷ ys) = ground (arith, bytes_eq_iff xs ys)

pub bytes_eq_refl : (xs : Bytes) → bytes_eq xs xs ≡ true
bytes_eq_refl xs = (bytes_eq_iff xs xs).1 refl

-- strings.IndexByte; `none` is its -1.
abbrev pub index_byte : Bytes → ℕ → Option ℕ
index_byte [] b = none
index_byte (x ∷ xs) b = if x == b then some 0 else Option.map suc (index_byte xs b)

-- strings.TrimSuffix(s, "/"): one slash at most.
unfoldable pub trim_suffix_slash : Bytes → Bytes
trim_suffix_slash [] = []
trim_suffix_slash (c ∷ []) = if c == b'/' then [] else c ∷ []
trim_suffix_slash (c ∷ d ∷ s) = c ∷ trim_suffix_slash (d ∷ s)

-- White space of one byte, and of two and three bytes in UTF-8, as unicode.IsSpace has it.
abbrev pub is_space : ℕ → Bool
is_space c = c == b' ' || (c == 9 || (c == 10 || (c == 11 || (c == 12 || c == 13))))

abbrev pub is_space_2 : ℕ → ℕ → Bool
is_space_2 a b = a == 194 && (b == 133 || b == 160)

abbrev pub is_space_3 : ℕ → ℕ → ℕ → Bool
is_space_3 a b c =
    (a == 225 && (b == 154 && c == 128))
    || ((a == 226
          && ((b == 128 && ((leb 128 c && leb c 138) || (c == 168 || (c == 169 || c == 175))))
              || (b == 129 && c == 159)))
        || (a == 227 && (b == 128 && c == 128)))

-- The length of the white space character that a string begins with, 0 where there is none.
unfoldable pub space_at : Bytes → ℕ
space_at [] = 0
space_at (a ∷ []) = if is_space a then 1 else 0
space_at (a ∷ b ∷ []) = if is_space a then 1 else if is_space_2 a b then 2 else 0
space_at (a ∷ b ∷ c ∷ s) =
    if is_space a then 1 else if is_space_2 a b then 2 else if is_space_3 a b c then 3 else 0

-- The same for the last character of a string that is given backwards.
unfoldable pub space_before : Bytes → ℕ
space_before [] = 0
space_before (a ∷ []) = if is_space a then 1 else 0
space_before (b ∷ a ∷ []) = if is_space b then 1 else if is_space_2 a b then 2 else 0
space_before (c ∷ b ∷ a ∷ s) =
    if is_space c then 1 else if is_space_2 b c then 2 else if is_space_3 a b c then 3 else 0

-- White space in front goes; the number counts the bytes of a character that are still to go.
unfoldable pub trim_by : (Bytes → ℕ) → ℕ → Bytes → Bytes
trim_by size n [] = []
trim_by size (suc n) (c ∷ s) = trim_by size n s
trim_by size zero (c ∷ s) = elim (size (c ∷ s) == 0) [
  | true ↦ c ∷ s
  | false ↦ trim_by size (size (c ∷ s) - 1) s
]

abbrev backwards : Bytes → Bytes → Bytes
backwards [] done = done
backwards (c ∷ s) done = backwards s (c ∷ done)

unfoldable pub trim_space : Bytes → Bytes
unfolding trim_by space_at space_before
trim_space s = backwards (trim_by space_before 0 (backwards (trim_by space_at 0 s) [])) []

-- strings.SplitN(s, sep, 2), where the separator occurs.
unfoldable pub cut_at : ℕ → Bytes → Option (Bytes × Bytes)
cut_at sep [] = none
cut_at sep (c ∷ s) =
    let rest = cut_at sep s in
    if c == sep then some ([], s) else Option.map (λ p. (c ∷ p.0, p.1)) rest

abbrev pub on_first : ℕ → List Bytes → List Bytes
on_first c [] = (c ∷ []) ∷ []
on_first c (p ∷ ps) = (c ∷ p) ∷ ps

-- strings.Split by one byte.
unfoldable pub split : ℕ → Bytes → List Bytes
split sep [] = [] ∷ []
split sep (c ∷ s) = let rest = split sep s in if c == sep then [] ∷ rest else on_first c rest

abbrev pub lower : ℕ → ℕ
lower c = if leb b'A' c && leb c b'Z' then c + 32 else c

-- strings.EqualFold where one of the strings is ASCII without k and s, whose only folds are ASCII too;
-- and the comparison of header names.
abbrev pub equal_fold : Bytes → Bytes → Bool
equal_fold [] [] = true
equal_fold [] (y ∷ ys) = false
equal_fold (x ∷ xs) [] = false
equal_fold (x ∷ xs) (y ∷ ys) = lower x == lower y && equal_fold xs ys

abbrev pub upper : ℕ → ℕ
upper c = if leb b'a' c && leb c b'z' then c - 32 else c
