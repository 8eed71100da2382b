-- ===== src/Middleware/Jwt/Presented.antt =====
-- The token that a request presents, by the place that a lookup names.
use goichi.Prelude.{
  ◌≡◌, refl, ap, ◌∙◌, Bool, none, some, [], ◌∷◌, ◌==◌, if◌then◌else◌, any, inl, inr, Bool-cases,
}
use goichi.Prelude.Text.{Bytes, codes, bytes_eq, trim_space, cut_at}
use goichi.Proxy.Forward.{trim_prefix}
use goichi.Middleware.Jwt.{Fields, read_field, extract_token}

abbrev pub has_colon : Bytes → Bool
has_colon s = any (λ c. c == b':') s

-- What stands before the first colon, and behind it.
abbrev before_colon : Bytes → Bytes
before_colon [] = []
before_colon (c ∷ s) = if c == b':' then [] else c ∷ before_colon s

abbrev behind_colon : Bytes → Bytes
behind_colon [] = []
behind_colon (c ∷ s) = if c == b':' then s else behind_colon s

pub cut_at-colon :
    (s : Bytes)
    → cut_at b':' s ≡ (if has_colon s then some (before_colon s, behind_colon s) else none)
unfolding cut_at
cut_at-colon [] = refl
cut_at-colon (c ∷ s) = elim (Bool-cases (c == b':')) [
  | inl e ↦ rw e refl
  | inr e ↦ elim (Bool-cases (has_colon s)) [
    | inl k ↦ rw (e, cut_at-colon s, k) refl
    | inr k ↦ rw (e, cut_at-colon s, k) refl
  ]
]

module _ {C : Type 0} (R : Fields C) where
  -- A header without its scheme, a query argument or a cookie. No other place is read.
  abbrev token_at : (place key : Bytes) → C → Bytes
  token_at place key ctx =
      if bytes_eq place (codes "header")
      then trim_space (trim_prefix (R.header key ctx) (codes "Bearer "))
      else if bytes_eq place (codes "query")
      then R.query key ctx
      else if bytes_eq place (codes "cookie")
      then R.cookie key ctx
      else []

  -- By a lookup as "header:Authorization", which an empty one stands for; none by one without a colon.
  abbrev pub presented : Bytes → C → Bytes
  presented [] ctx = token_at (codes "header") (codes "Authorization") ctx
  presented (c ∷ spec) ctx =
      if has_colon (c ∷ spec)
      then token_at (before_colon (c ∷ spec)) (behind_colon (c ∷ spec)) ctx
      else []

  read_by_cut :
      (spec : Bytes) (ctx : C)
      → (elim (cut_at b':' spec) as (λ _. Bytes) [
        | none ↦ []
        | some cut ↦ read_field R cut.0 cut.1 ctx
      ])
        ≡ (if has_colon spec then token_at (before_colon spec) (behind_colon spec) ctx else [])
  read_by_cut spec ctx =
      ap (λ o. elim o as (λ _. Bytes) [ none ↦ [] | some cut ↦ read_field R cut.0 cut.1 ctx ])
        (cut_at-colon spec)
      ∙ elim (Bool-cases (has_colon spec)) [ inl k ↦ rw k refl | inr k ↦ rw k refl ]

  pub extract_token-presented :
      (spec : Bytes) (ctx : C) → extract_token R spec ctx ≡ presented spec ctx
  unfolding extract_token
  extract_token-presented [] ctx = read_by_cut (codes "header:Authorization") ctx
  extract_token-presented (c ∷ spec) ctx = read_by_cut (c ∷ spec) ctx
