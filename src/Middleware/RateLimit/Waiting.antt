-- ===== src/Middleware/RateLimit/Waiting.antt =====
-- That a client which waits is let through again.
use goichi.Prelude.{
  ℕ, ◌+◌, ◌≤◌, ◌<◌, ◌≡◌, Bool, true, false, not, ◌&&◌, some, List, [], ◌∷◌, all, arith, inl, inr,
  Bool-cases, Option-cases,
}
use goichi.Prelude.Text.{Bytes, bytes_eq}
use goichi.Prelude.Int.{ℤ, pos}
use goichi.Http
use goichi.Http.{lookup}
use goichi.Middleware.RateLimit.{Visitor, Visitors, after, get_visitor, hit, admit, sweep}
use goichi.Middleware.RateLimit.Window.{Event, request, tick, step}

-- The visitors after some events, in their order.
abbrev pub after_events : ℤ → ℕ → List Event → Visitors → Visitors
after_events limit window [] vs = vs
after_events limit window (e ∷ es) vs = after_events limit window es (step limit window e vs)

-- No reading of the clock in an event is after the time.
abbrev pub read_by : ℕ → Event → Bool
read_by t (request ip now now') = not (after now t) && not (after now' t)
read_by t (tick now) = not (after now t)

-- Every window ends by a time.
abbrev pub EndBy : ℕ → Visitors → Type 0
EndBy b [] = Unit
EndBy b ((ip, v) ∷ vs) = (v.reset_at ≤ b) × EndBy b vs

insert-EndBy :
    (b : ℕ) (ip : Bytes) (v : Visitor) (vs : Visitors)
    → v.reset_at ≤ b
    → EndBy b vs
    → EndBy b (Http.insert ip v vs)
unfolding Http.insert
insert-EndBy b ip v [] h k = (h, tt)
insert-EndBy b ip v ((j, w) ∷ vs) h k = elim (Bool-cases (bytes_eq j ip)) [
  | inl same ↦ rw same (h, k.1)
  | inr other ↦ rw other (k.0, insert-EndBy b ip v vs h k.1)
]

sweep-EndBy : (b now : ℕ) (vs : Visitors) → EndBy b vs → EndBy b (sweep now vs)
unfolding sweep
sweep-EndBy b now [] h = tt
sweep-EndBy b now ((ip, v) ∷ vs) h = elim (Bool-cases (after now v.reset_at)) [
  | inl gone ↦ rw gone (sweep-EndBy b now vs h.1)
  | inr kept ↦ rw kept (h.0, sweep-EndBy b now vs h.1)
]

lookup-EndBy :
    (b : ℕ) (ip : Bytes) (v : Visitor) (vs : Visitors)
    → EndBy b vs
    → lookup ip vs ≡ some v
    → v.reset_at ≤ b
unfolding lookup
lookup-EndBy b ip v [] h e = cc e
lookup-EndBy b ip v ((j, w) ∷ vs) h e = elim (Bool-cases (bytes_eq j ip)) [
  | inl same ↦ ground (arith, same)
  | inr other ↦ lookup-EndBy b ip v vs h.1 (rw other at e)
]

get_visitor-EndBy :
    (b : ℕ) (ip : Bytes) (window now : ℕ) (vs : Visitors)
    → now + window ≤ b
    → EndBy b vs
    → EndBy b (get_visitor ip window now vs).0 × ((get_visitor ip window now vs).1.reset_at ≤ b)
unfolding get_visitor
get_visitor-EndBy b ip window now vs by h = elim (Option-cases (lookup ip vs)) [
  | inl e ↦ rw (e, get_visitor) (insert-EndBy b ip _ vs by h, by)
  | inr (v, e) ↦ rw (e, get_visitor) (h, lookup-EndBy b ip v vs h e)
]

hit-le :
    (b window now : ℕ) (v : Visitor)
    → now + window ≤ b
    → v.reset_at ≤ b
    → (hit window now v).reset_at ≤ b
unfolding hit
hit-le b window now v by h = ground arith

step-EndBy :
    (limit : ℤ) (window t : ℕ) (e : Event) (vs : Visitors)
    → read_by t e ≡ true
    → EndBy (t + window) vs
    → EndBy (t + window) (step limit window e vs)
unfolding admit
step-EndBy limit window t (tick now) vs by h = sweep-EndBy (t + window) now vs h
step-EndBy limit window t (request ip now now') vs by h =
    let (known, ends) = get_visitor-EndBy (t + window) ip window now vs (ground (arith, by)) h in
    insert-EndBy (t + window) ip _ _ (hit-le (t + window) window now' _ (ground (arith, by)) ends)
      known

after_events-EndBy :
    (limit : ℤ) (window t : ℕ) (es : List Event) (vs : Visitors)
    → all (read_by t) es ≡ true
    → EndBy (t + window) vs
    → EndBy (t + window) (after_events limit window es vs)
after_events-EndBy limit window t [] vs by h = h
after_events-EndBy limit window t (e ∷ es) vs by h =
    after_events-EndBy limit window t es (step limit window e vs) (ground (arith, by))
      (step-EndBy limit window t e vs (ground (arith, by)) h)

hit-once : (window now : ℕ) (v : Visitor) → v.reset_at < now → (hit window now v).count ≡ 1
unfolding hit
hit-once window now v h = ground arith

hit-new : (window now t : ℕ) → (hit window now (record { count = 0; reset_at = t })).count ≡ 1
unfolding hit
hit-new window now t = ground arith

admit-ended :
    (limit window now now' : ℕ) (who : Bytes) (vs : Visitors)
    → 1 ≤ limit
    → ((v : Visitor) → lookup who vs ≡ some v → v.reset_at < now')
    → (admit (pos limit) window who now now' vs).1 ≡ false
unfolding admit get_visitor
admit-ended limit window now now' who vs one ended = elim (Option-cases (lookup who vs)) [
  | inl e ↦ rw (e, get_visitor) (ground (arith, hit-new window now' (now + window)))
  | inr (v, e) ↦ rw (e, get_visitor) (ground (arith, hit-once window now' v (ended v e)))
]

-- A limiter with a limit of one or more lets a request through that comes more than a window after the
-- time by which the clock was read last, whatever requests and sweeps there were, if the windows of the
-- visitors at first ended by then too.
pub admit-after_waiting :
    (limit window t now now' : ℕ) (who : Bytes) (es : List Event) (vs : Visitors)
    → 1 ≤ limit
    → EndBy (t + window) vs
    → all (read_by t) es ≡ true
    → t + window < now'
    → (admit (pos limit) window who now now' (after_events (pos limit) window es vs)).1 ≡ false
admit-after_waiting limit window t now now' who es vs one ends by late =
    let later = after_events-EndBy (pos limit) window t es vs by ends in
    admit-ended limit window now now' who (after_events (pos limit) window es vs) one
      (λ v e. omega (arith, late, lookup-EndBy (t + window) who v _ later e))
