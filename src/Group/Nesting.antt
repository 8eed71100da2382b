-- ===== src/Group/Nesting.antt =====
-- What the groups of groups declare.
use goichi.Prelude.{
  ℕ, ◌≡◌, refl, sym, ap, ap₂, ◌∙◌, Bool, true, false, not, ◌&&◌, List, [], ◌∷◌, ◌++◌, ◌==◌, arith,
}
use goichi.Prelude.Text.{Bytes, codes, bytes_eq, trim_suffix_slash}
use goichi.Http.{Handler, Middleware}
use goichi.Router.{Router, add_route}
use goichi.Router.Paths.{ends_in_slash}
use goichi.Group.{Group, rooted_once, group, full_path, add}

append_assoc : {A : Type 0} (xs ys zs : List A) → (xs ++ ys) ++ zs ≡ xs ++ (ys ++ zs)
append_assoc [] ys zs = refl
append_assoc (x ∷ xs) ys zs = ap (λ l. x ∷ l) (append_assoc xs ys zs)

-- A path between slashes: not empty, with no slash at its start or its end.
abbrev pub is_segment : Bytes → Bool
is_segment [] = false
is_segment (c ∷ path) = not (c == b'/') && not (ends_in_slash (c ∷ path))

trim-append :
    (xs : Bytes) (c : ℕ) (ys : Bytes)
    → ends_in_slash (c ∷ ys) ≡ false
    → trim_suffix_slash (xs ++ c ∷ ys) ≡ xs ++ c ∷ ys
unfolding trim_suffix_slash ends_in_slash
trim-append [] c [] h = ground (arith, h)
trim-append [] c (d ∷ ys) h = ap (λ l. c ∷ l) (trim-append [] d ys h)
trim-append (x ∷ []) c ys h = ap (λ l. x ∷ l) (trim-append [] c ys h)
trim-append (x ∷ y ∷ xs) c ys h = ap (λ l. x ∷ l) (trim-append (y ∷ xs) c ys h)

rooted_once-segment : (p : Bytes) → is_segment p ≡ true → rooted_once p ≡ b'/' ∷ p
unfolding rooted_once
rooted_once-segment [] h = cc h
rooted_once-segment (c ∷ p) h = ground arith

trim-rooted :
    (xs p : Bytes) → is_segment p ≡ true → trim_suffix_slash (xs ++ b'/' ∷ p) ≡ xs ++ b'/' ∷ p
unfolding ends_in_slash
trim-rooted xs [] h = cc h
trim-rooted xs (c ∷ p) h = trim-append xs b'/' (c ∷ p) (ground arith)

module _ {C : Type 0} where
  -- A path of a nested group is the outer prefix, the inner one and the path, with one slash before
  -- each of the last two.
  pub full_path-group :
      (p path : Bytes) (m : List (Middleware C)) (g : Group C)
      → is_segment p ≡ true
      → is_segment path ≡ true
      → full_path path (group p m g) ≡ trim_suffix_slash g.prefix ++ (b'/' ∷ p ++ b'/' ∷ path)
  unfolding full_path group
  full_path-group p [] m g hp h = cc h
  full_path-group p (c ∷ path) m g hp h =
      let start : bytes_eq (c ∷ path) (codes "/") ≡ false = ground arith in
      rw
        (
          rooted_once-segment p hp,
          rooted_once-segment (c ∷ path) h,
          trim-rooted (trim_suffix_slash g.prefix) p hp,
          start,
        )
        (append_assoc (trim_suffix_slash g.prefix) (b'/' ∷ p) (b'/' ∷ c ∷ path))

  full_path-joined :
      (p xs : Bytes) (g : Group C)
      → is_segment p ≡ true
      → full_path (p ++ xs) g ≡ trim_suffix_slash g.prefix ++ (b'/' ∷ p ++ xs)
  unfolding full_path rooted_once
  full_path-joined [] xs g h = cc h
  full_path-joined (c ∷ p) xs g h = let other : (c == b'/') ≡ false = ground arith in rw other refl

  -- A route of a nested group is the route that the outer group declares for the joined path with
  -- the nested group's middleware before the route's own, if the two paths are not empty and neither
  -- start nor end with a slash.
  pub add-group :
      (method p path : Bytes) (h : Handler C) (ms m : List (Middleware C)) (g : Group C)
      (r : Router C)
      → is_segment p ≡ true
      → is_segment path ≡ true
      → add method path h m (group p ms g) r ≡ add method (p ++ b'/' ∷ path) h (ms ++ m) g r
  unfolding add group
  add-group method p path h ms m g r hp hq =
      ap₂ (λ q mws. add_route method q h mws r)
        (full_path-group p path ms g hp hq ∙ sym (full_path-joined p (b'/' ∷ path) g hp))
        (append_assoc g.middlewares ms m)
