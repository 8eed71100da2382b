-- ===== src/Protocol/WebSocket/Origin.antt =====
-- What of an origin is compared with the host of a request.
use goichi.Prelude.{
  some, [], ◌∷◌, ◌++◌, ℕ, ◌≡◌, refl, ap, Bool, false, ◌||◌, none, arith, inl, inr, Bool-cases,
  Option-cases,
}
use goichi.Prelude.Text.{Bytes, codes, bytes_eq, bytes_eq_iff}
use goichi.Middleware.Body.{is_prefix}
use goichi.Protocol.WebSocket.{after_scheme, origin_host}

-- Some part of a text is "://".
abbrev pub has_scheme : Bytes → Bool
has_scheme [] = false
has_scheme (a ∷ s) = is_prefix (codes "://") (a ∷ s) || has_scheme s

-- The part of an origin that is compared with the host: what follows its first "://", or all of it.
pub data IsHostOf (origin : Bytes) : Bytes → Type 0 where
  whole : has_scheme origin ≡ false → IsHostOf origin origin
  behind :
      (scheme host : Bytes)
      → origin ≡ scheme ++ (codes "://" ++ host)
      → has_scheme (scheme ++ codes ":/") ≡ false
      → IsHostOf origin host

abbrev Behind : Bytes → Bytes → Type 0
Behind origin host =
    (scheme : Bytes) × (origin ≡ scheme ++ (codes "://" ++ host))
    × (has_scheme (scheme ++ codes ":/") ≡ false)

after_scheme-none : (s : Bytes) → after_scheme s ≡ none → has_scheme s ≡ false
unfolding after_scheme
after_scheme-none [] e = refl
after_scheme-none (a ∷ []) e = ground arith
after_scheme-none (a ∷ b ∷ []) e = ground arith
after_scheme-none (a ∷ b ∷ c ∷ s) e = ground (arith, after_scheme-none (b ∷ c ∷ s))

one_more :
    (a b c : ℕ) (s host : Bytes)
    → is_prefix (codes "://") (a ∷ b ∷ c ∷ s) ≡ false
    → Behind (b ∷ c ∷ s) host
    → Behind (a ∷ b ∷ c ∷ s) host
one_more a b c s host differs ([], same, free) = (a ∷ [], ap (◌∷◌ a) same, ground arith)
one_more a b c s host differs (x ∷ [], same, free) =
    (a ∷ x ∷ [], ap (◌∷◌ a) same, ground (arith, free))
one_more a b c s host differs (x ∷ y ∷ scheme, same, free) =
    let heads : (b ≡ x) × (c ≡ y) = (cc same, cc same) in
    (a ∷ x ∷ y ∷ scheme, ap (◌∷◌ a) same, ground (arith, differs, free, heads))

after_scheme-some : (s host : Bytes) → after_scheme s ≡ some host → Behind s host
unfolding after_scheme
after_scheme-some [] host e = cc
after_scheme-some (a ∷ []) host e = cc
after_scheme-some (a ∷ b ∷ []) host e = cc
after_scheme-some (a ∷ b ∷ c ∷ s) host e =
    elim (Bool-cases (bytes_eq (a ∷ b ∷ c ∷ []) (codes "://"))) [
      | inl here ↦
          let same : s ≡ host = ground (arith, here) in
          let front : a ∷ b ∷ c ∷ [] ≡ codes "://" =
            (bytes_eq_iff (a ∷ b ∷ c ∷ []) (codes "://")).0 here in
          ([], cc (front, same), refl)
      | inr differs ↦
          one_more a b c s host (ground (arith, differs))
            (after_scheme-some (b ∷ c ∷ s) host (ground (arith, differs)))
    ]

pub origin_host-IsHostOf : (origin : Bytes) → IsHostOf origin (origin_host origin)
unfolding origin_host
origin_host-IsHostOf origin = elim (Option-cases (after_scheme origin)) [
  | inl e ↦ rw (e, origin_host) (whole (after_scheme-none origin e))
  | inr (host, e) ↦
      let (scheme, same, free) = after_scheme-some origin host e in
      rw (e, origin_host) (behind scheme host same free)
]
