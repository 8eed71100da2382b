-- ===== src/Middleware/RateLimit/Window.antt =====
-- How many requests of a client a limiter lets through in one window.
use goichi.Prelude.{
  ℕ, zero, suc, ◌+◌, ◌≤◌, ◌<◌, ◌≡◌, refl, sym, ◌∙◌, Bool, true, false, not, some, List, [], ◌∷◌,
  ltb, all, subst, if◌then◌else◌, arith, inl, inr, Bool-cases, Option-cases,
}
use goichi.Prelude.Text.{Bytes, bytes_eq, bytes_eq_iff, bytes_eq_refl}
use goichi.Prelude.Int.{ℤ, pos}
use goichi.Http.{lookup}
use goichi.Http.Maps.{lookup-insert}
use goichi.Middleware.RateLimit.{Visitor, Visitors, after, get_visitor, hit, exceeds, admit, sweep}

-- A request of a client, with its two readings of the clock, or a tick of the sweep.
pub data Event : Type 0 where
  request : Bytes → ℕ → ℕ → Event
  tick : ℕ → Event

-- No reading of the clock is after the time.
abbrev pub is_by : ℕ → Event → Bool
is_by t (request ip now now') = not (after now' t)
is_by t (tick now) = not (after now t)

abbrev pub step : ℤ → ℕ → Event → Visitors → Visitors
step limit window (request ip now now') vs = (admit limit window ip now now' vs).0
step limit window (tick now) vs = sweep now vs

-- How many requests of a client are let through.
abbrev pub admitted : ℤ → ℕ → Bytes → List Event → Visitors → ℕ
admitted limit window who [] vs = 0
admitted limit window who (request ip now now' ∷ es) vs =
    let (vs', over) = admit limit window ip now now' vs in
    let rest = admitted limit window who es vs' in
    if over then rest else if bytes_eq ip who then suc rest else rest
admitted limit window who (tick now ∷ es) vs = admitted limit window who es (sweep now vs)

abbrev pub requests_of : Bytes → List Event → ℕ
requests_of who [] = 0
requests_of who (request ip now now' ∷ es) =
    if bytes_eq ip who then suc (requests_of who es) else requests_of who es
requests_of who (tick now ∷ es) = requests_of who es

lookup-get_visitor :
    (ip who : Bytes) (window now : ℕ) (vs : Visitors) (v : Visitor)
    → lookup who vs ≡ some v
    → lookup who (get_visitor ip window now vs).0 ≡ some v
unfolding get_visitor
lookup-get_visitor ip who window now vs v h = elim (Option-cases (lookup ip vs)) [
  | inl e ↦ elim (Bool-cases (bytes_eq ip who)) [
    | inl same ↦ cc (h, (bytes_eq_iff ip who).0 same)
    | inr other ↦ rw (e, get_visitor) (lookup-insert ip who _ vs ∙ rw other h)
  ]
  | inr (u, e) ↦ rw (e, get_visitor) h
]

get_visitor_known :
    (ip : Bytes) (window now : ℕ) (vs : Visitors) (v : Visitor)
    → lookup ip vs ≡ some v
    → get_visitor ip window now vs ≡ (vs, v)
unfolding get_visitor
get_visitor_known ip window now vs v h = rw (h, get_visitor) refl

hit_within :
    (window now n t : ℕ)
    → after now t ≡ false
    → hit window now (record { count = n; reset_at = t }) ≡ record { count = suc n; reset_at = t }
hit_within window now n t h = unfold hit in rw h refl

-- The client is known, with `n` requests counted in a window that ends at `t`.
abbrev pub At : Bytes → ℕ → ℕ → Visitors → Type 0
At who n t vs = lookup who vs ≡ some (record { count = n; reset_at = t })

admit-own :
    (limit : ℤ) (window : ℕ) (who : Bytes) (now now' n t : ℕ) (vs : Visitors)
    → At who n t vs
    → not (after now' t) ≡ true
    → At who (suc n) t (admit limit window who now now' vs).0
      × ((admit limit window who now now' vs).1 ≡ exceeds (suc n) limit)
unfolding admit
admit-own limit window who now now' n t vs h by =
    let still : after now' t ≡ false = ground (arith, by) in
    rw (get_visitor_known who window now vs _ h, hit_within window now' n t still)
      (lookup-insert who who _ vs ∙ rw (bytes_eq_refl who) refl, refl)

admit-other :
    (limit : ℤ) (window : ℕ) (ip who : Bytes) (now now' n t : ℕ) (vs : Visitors)
    → At who n t vs
    → bytes_eq ip who ≡ false
    → At who n t (admit limit window ip now now' vs).0
unfolding admit
admit-other limit window ip who now now' n t vs h other =
    lookup-insert ip who _ _ ∙ rw other (lookup-get_visitor ip who window now vs _ h)

sweep-At :
    (who : Bytes) (now n t : ℕ) (vs : Visitors)
    → not (after now t) ≡ true
    → At who n t vs
    → At who n t (sweep now vs)
unfolding sweep lookup
sweep-At who now n t [] by h = h
sweep-At who now n t ((ip, v) ∷ vs) by h = elim (Bool-cases (bytes_eq ip who)) [
  | inl same ↦
      let now_it : some v ≡ some (record { count = n; reset_at = t }) = rw same at h in
      ground (arith, now_it, same, by)
  | inr other ↦ ground (arith, other, sweep-At who now n t vs by (rw other at h))
]

-- The number of the next `n` requests that stay within a limit, where `c` are counted already.
abbrev pub room : ℤ → ℕ → ℕ → ℕ
room limit c zero = 0
room limit c (suc n) =
    let rest = room limit (suc c) n in if exceeds (suc c) limit then rest else suc rest

own_step :
    (limit : ℤ) (window : ℕ) (who : Bytes) (now now' : ℕ) (es : List Event) (n : ℕ) (vs : Visitors)
    → (admit limit window who now now' vs).1 ≡ exceeds (suc n) limit
    → admitted limit window who es (admit limit window who now now' vs).0
      ≡ room limit (suc n) (requests_of who es)
    → admitted limit window who (request who now now' ∷ es) vs
      ≡ room limit n (requests_of who (request who now now' ∷ es))
own_step limit window who now now' es n vs over rest =
    rw (over, bytes_eq_refl who) (ground (arith, rest))

room-over : (limit c n : ℕ) → limit < suc c → room (pos limit) c n ≡ 0
room-over limit c zero h = refl
room-over limit c (suc n) h = ground (arith, room-over limit (suc c) n)

-- Of the requests of a known client in one window the limiter lets through those, in their order, with
-- which its count stays within the limit, whatever other clients and the sweep do in between. No
-- reading of the clock is after the end of the window.
pub admitted-room :
    (limit : ℤ) (window : ℕ) (who : Bytes) (es : List Event) (n t : ℕ) (vs : Visitors)
    → At who n t vs
    → all (is_by t) es ≡ true
    → admitted limit window who es vs ≡ room limit n (requests_of who es)
admitted-room limit window who [] n t vs h by = refl
admitted-room limit window who (tick now ∷ es) n t vs h by =
    admitted-room limit window who es n t (sweep now vs) (sweep-At who now n t vs (ground arith) h)
      (ground arith)
admitted-room limit window who (request ip now now' ∷ es) n t vs h by =
    elim (Bool-cases (bytes_eq ip who)) [
      | inl same ↦
          let mine : ip ≡ who = (bytes_eq_iff ip who).0 same in
          let (there, over) = admit-own limit window who now now' n t vs h (ground arith) in
          let rest =
            admitted-room limit window who es (suc n) t (admit limit window who now now' vs).0 there
              (ground arith) in
          subst
            (λ ip'.
              admitted limit window who (request ip' now now' ∷ es) vs
              ≡ room limit n (requests_of who (request ip' now now' ∷ es)))
            (sym mine) (own_step limit window who now now' es n vs over rest)
      | inr other ↦
          let rest =
            admitted-room limit window who es n t (admit limit window ip now now' vs).0
              (admit-other limit window ip who now now' n t vs h other) (ground arith) in
          ground (arith, other, rest)
    ]

room-le : (limit c n : ℕ) → c ≤ limit → room (pos limit) c n + c ≤ limit
room-le limit c zero h = omega arith
room-le limit c (suc n) h = elim (Bool-cases (ltb limit (suc c))) [
  | inl over ↦ ground (arith, over, room-over limit (suc c) n)
  | inr within ↦ ground (arith, within, room-le limit (suc c) n)
]

-- A limiter lets through at most `limit` requests of a known client in one window, at the start of
-- which none is counted, if no reading of the clock is after its end.
pub admitted-le :
    (limit window : ℕ) (who : Bytes) (es : List Event) (t : ℕ) (vs : Visitors)
    → At who 0 t vs
    → all (is_by t) es ≡ true
    → admitted (pos limit) window who es vs ≤ limit
admitted-le limit window who es t vs h by = omega (
  arith,
  admitted-room (pos limit) window who es 0 t vs h by,
  room-le limit 0 (requests_of who es) (omega arith),
)
