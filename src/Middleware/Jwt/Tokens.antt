-- ===== src/Middleware/Jwt/Tokens.antt =====
-- Tokens that EncodeJWT signs and ValidateJWT reads.
use mathlib.Core.Option
use goichi.Prelude.{
  Bool, Option, is_some, sym, not, ◌&&◌, if◌then◌else◌, ℕ, ◌+◌, ◌≤◌, ◌≡◌, refl, ap, ◌∙◌, true,
  false, none, some, [], ◌∷◌, is_empty, ltb, inl, inr, Option-cases,
}
use goichi.Prelude.Text.{Bytes, codes, bytes_eq}
use goichi.Prelude.Int.{ℤ}
use goichi.Http.{Value, lookup}
use goichi.Http.Maps.{lookup-insert}
use goichi.Middleware.Jwt.{
  Claims, JwtLibrary, valid, validate_jwt, with_default, ttl_of, stamped, encode_jwt_with_ttl,
}

if_and_true :
    {A : Type 0} (b : Bool) (x y : A) → (if b then x else y) ≡ (if b && true then x else y)
if_and_true true x y = refl
if_and_true false x y = refl

if_and_false : {A : Type 0} (b : Bool) (x y : A) → y ≡ (if b && false then x else y)
if_and_false true x y = refl
if_and_false false x y = refl

lookup-with_default :
    (k j : Bytes) (v : Value) (m : Claims)
    → bytes_eq k j ≡ false
    → lookup j (with_default k v m) ≡ lookup j m
lookup-with_default k j v m other = elim (Option-cases (lookup k m)) [
  | inl e ↦ rw (e, with_default) (lookup-insert k j v m ∙ rw other refl)
  | inr (u, e) ↦ rw (e, with_default) refl
]

lookup-with_default_new :
    (k : Bytes) (v : Value) (m : Claims)
    → lookup k m ≡ none
    → bytes_eq k k ≡ true
    → lookup k (with_default k v m) ≡ some v
lookup-with_default_new k v m e self = rw (e, with_default) (lookup-insert k k v m ∙ rw self refl)

lookup-with_default_any :
    (k j : Bytes) (v : Value) (m : Claims)
    → lookup j (with_default k v m)
      ≡ (if bytes_eq k j && not (is_some (lookup k m)) then some v else lookup j m)
lookup-with_default_any k j v m = elim (Option-cases (lookup k m)) [
  | inl e ↦
      rw (e, with_default)
        (lookup-insert k j v m ∙ if_and_true (bytes_eq k j) (some v) (lookup j m))
  | inr (u, e) ↦ rw (e, with_default) (if_and_false (bytes_eq k j) (some v) (lookup j m))
]

abbrev is_ascii : Bytes → Bool
is_ascii [] = true
is_ascii (b ∷ s) = ltb b 128 && is_ascii s

-- The JWT library: a token that is signed is not empty, and is accepted under its key up to a second
-- before its expiry, which is kept to the second. The claims come back through JSON, as `back` tells, which
-- keeps a name in ASCII and makes of its value what `reread` tells. A claim set need not be signed.
pub record IsJwtLibrary (J : JwtLibrary) (back : Claims → Claims) (reread : Value → Value)
    : Type 0 where
  pub signs : (m : Claims) (secret s : Bytes) → J.sign m secret ≡ some s → is_empty s ≡ false
  pub accepts :
      (m : Claims) (secret s : Bytes) (now exp : ℕ)
      → J.sign m secret ≡ some s
      → lookup (codes "exp") m ≡ some (J.date exp)
      → lookup (codes "nbf") m ≡ none
      → now + 1000000000 ≤ exp
      → J.parse s secret now ≡ some (back m)
  pub keeps :
      (m : Claims) (k : Bytes)
      → is_ascii k ≡ true
      → lookup k (back m) ≡ Option.map reread (lookup k m)

-- A claim of a token: the time of issue where the claims have none, the expiry, or what the claims say.
abbrev pub claim_of : JwtLibrary → Claims → ℤ → ℕ → Bytes → Option Value
claim_of J claims ttl now k =
    if bytes_eq (codes "iat") k && not (is_some (lookup (codes "iat") claims))
    then some (J.date now)
    else if bytes_eq (codes "exp") k
    then some (J.date (now + ttl_of ttl))
    else lookup k claims

lookup-stamped :
    (J : JwtLibrary) (claims : Claims) (ttl : ℤ) (now : ℕ)
    → lookup (codes "exp") claims ≡ none
    → (k : Bytes) → lookup k (stamped J ttl now claims) ≡ claim_of J claims ttl now k
lookup-stamped J claims ttl now no_exp k =
    let exp = J.date (now + ttl_of ttl) in
    let inner = with_default (codes "exp") exp claims in
    let inner_iat = lookup-with_default (codes "exp") (codes "iat") exp claims refl in
    let inner_k = lookup-with_default_any (codes "exp") k exp claims in
    lookup-with_default_any (codes "iat") k (J.date now) inner
    ∙ ap
        (λ o.
          if bytes_eq (codes "iat") k && not (is_some o) then some (J.date now) else lookup k inner)
        inner_iat
    ∙ ap
        (λ o.
          if bytes_eq (codes "iat") k && not (is_some (lookup (codes "iat") claims))
          then some (J.date now)
          else o)
        (inner_k
          ∙ ap
              (λ o.
                if bytes_eq (codes "exp") k && not (is_some o) then some exp else lookup k claims)
              no_exp
          ∙ sym (if_and_true (bytes_eq (codes "exp") k) (some exp) (lookup k claims)))

-- What ValidateJWT reads of a token.
pub record IsReadBack (J : JwtLibrary) (reread : Value → Value) (claims : Claims)
    (token secret : Bytes) (ttl : ℤ) (now later : ℕ) : Type 0 where
  pub read : Claims
  pub accepted : validate_jwt J later token secret ≡ valid read
  pub kept :
      (k : Bytes)
      → is_ascii k ≡ true
      → lookup k read ≡ Option.map reread (claim_of J claims ttl now k)

encode_jwt_with_ttl-sign :
    (J : JwtLibrary) (claims : Claims) (secret token : Bytes) (ttl : ℤ) (now : ℕ)
    → is_empty secret ≡ false
    → encode_jwt_with_ttl J claims secret ttl now ≡ some token
    → J.sign (stamped J ttl now claims) secret ≡ some token
unfolding encode_jwt_with_ttl
encode_jwt_with_ttl-sign J claims secret token ttl now set e = rw set at e

-- A token that EncodeJWTWithTTL gives for claims without exp and nbf, under a secret that is not empty, is
-- valid up to a second before the time to live ends. It carries the expiry, the time of issue where the
-- claims had none, and every other claim under a name in ASCII as it was, up to its way through JSON.
pub validate_jwt-encode :
    (J : JwtLibrary) (back : Claims → Claims) (reread : Value → Value) (claims : Claims)
    (token secret : Bytes) (ttl : ℤ) (now later : ℕ)
    → IsJwtLibrary J back reread
    → is_empty secret ≡ false
    → lookup (codes "exp") claims ≡ none
    → lookup (codes "nbf") claims ≡ none
    → later + 1000000000 ≤ now + ttl_of ttl
    → encode_jwt_with_ttl J claims secret ttl now ≡ some token
    → IsReadBack J reread claims token secret ttl now later
unfolding validate_jwt
validate_jwt-encode J back reread claims s secret ttl now later law set no_exp no_nbf soon e =
    let m = stamped J ttl now claims in
    let inner = with_default (codes "exp") (J.date (now + ttl_of ttl)) claims in
    let signs_s = encode_jwt_with_ttl-sign J claims secret s ttl now set e in
    let full = law.signs m secret s signs_s in
    let exp_in =
      lookup-with_default (codes "iat") (codes "exp") (J.date now) inner refl
      ∙ lookup-with_default_new (codes "exp") (J.date (now + ttl_of ttl)) claims no_exp refl in
    let nbf_in =
      lookup-with_default (codes "iat") (codes "nbf") (J.date now) inner refl
      ∙ lookup-with_default (codes "exp") (codes "nbf") (J.date (now + ttl_of ttl)) claims refl
      ∙ no_nbf in
    let parsed = law.accepts m secret s later (now + ttl_of ttl) signs_s exp_in nbf_in soon in
    record {
      read = back m;
      accepted = rw (set, full, parsed) refl;
      kept = λ k ascii.
          law.keeps m k ascii ∙ ap (Option.map reread) (lookup-stamped J claims ttl now no_exp k);
    }
