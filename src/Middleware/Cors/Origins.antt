-- ===== src/Middleware/Cors/Origins.antt =====
-- Which origins a configuration lets through.
use goichi.Prelude.{◌≡◌, true, false, ◌||◌, ◌&&◌, List, [], ◌∷◌, is_empty, any, arith}
use goichi.Prelude.Text.{Bytes, codes, bytes_eq, bytes_eq_refl}
use goichi.Middleware.Cors.{allowed_origin}

-- An origin that is allowed is listed itself or by "*", and the header carries no other value.
pub allowed_origin-listed :
    (os : List Bytes) (origin : Bytes)
    → is_empty (allowed_origin os origin) ≡ false
    → (any (λ o. bytes_eq o (allowed_origin os origin)) os
        && (bytes_eq (allowed_origin os origin) (codes "*")
            || bytes_eq (allowed_origin os origin) origin))
      ≡ true
unfolding allowed_origin
allowed_origin-listed [] origin h = cc h
allowed_origin-listed (o ∷ os) origin h =
    ground (arith, allowed_origin-listed os origin, bytes_eq_refl o)
