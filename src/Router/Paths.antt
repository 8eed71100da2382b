-- ===== src/Router/Paths.antt =====
-- router.go: matchPath, and what it does to a path.
use goichi.Prelude.{
  ℕ, ◌≡◌, refl, Bool, true, false, not, ◌&&◌, [], ◌∷◌, ◌==◌, ltb, if◌then◌else◌, length, is_empty,
  arith,
}
use goichi.Prelude.Text.{Bytes}

-- path[len(path)-1] == '/'
unfoldable pub ends_in_slash : Bytes → Bool
ends_in_slash [] = false
ends_in_slash (c ∷ []) = c == b'/'
ends_in_slash (c ∷ d ∷ path) = ends_in_slash (d ∷ path)

-- strings.TrimRight(path, "/"): a byte stays if it, or a byte behind it, is no slash.
unfoldable pub trim_slashes : Bytes → Bytes
trim_slashes [] = []
trim_slashes (c ∷ path) =
    let rest = trim_slashes path in if is_empty rest && c == b'/' then [] else c ∷ rest

unfoldable pub match_path : Bool → Bytes → Bytes
match_path strict_slash path =
    if not strict_slash && (ltb 1 (length path) && ends_in_slash path)
    then (if is_empty (trim_slashes path) then b'/' ∷ [] else trim_slashes path)
    else path

ends_in_slash-trim_step :
    (c : ℕ) (rest : Bytes)
    → ends_in_slash rest ≡ false
    → ends_in_slash (if is_empty rest && c == b'/' then [] else c ∷ rest) ≡ false
unfolding ends_in_slash
ends_in_slash-trim_step c [] h = ground arith
ends_in_slash-trim_step c (d ∷ rest) h = h

ends_in_slash-trim_slashes : (path : Bytes) → ends_in_slash (trim_slashes path) ≡ false
unfolding trim_slashes
ends_in_slash-trim_slashes [] = unfold ends_in_slash in refl
ends_in_slash-trim_slashes (c ∷ path) =
    ends_in_slash-trim_step c (trim_slashes path) (ends_in_slash-trim_slashes path)

-- Where slashes are not strict the normal form ends in no slash, but for the root itself.
pub match_path_trims :
    (path : Bytes)
    → (ltb 1 (length (match_path false path)) && ends_in_slash (match_path false path)) ≡ false
unfolding match_path
match_path_trims path = ground (arith, ends_in_slash-trim_slashes path)

-- To normalise a path again changes nothing.
pub match_path_idempotent :
    (strict : Bool) (path : Bytes)
    → match_path strict (match_path strict path) ≡ match_path strict path
match_path_idempotent true path = unfold match_path in refl
match_path_idempotent false path = unfold match_path in rw (match_path_trims path) refl
