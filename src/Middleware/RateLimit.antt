-- ===== src/Middleware/RateLimit.antt =====
-- middleware/ratelimit.go: the visitors that all limiters share, as a map, and the limiter with its
-- sweep. Times are in nanoseconds; each reading of the clock is an argument.
pub mod Window
pub mod Waiting
use goichi.Prelude.{
  ℕ, suc, ◌+◌, Bool, true, false, not, Option, none, some, List, [], ◌∷◌, ltb, if◌then◌else◌,
}
use goichi.Prelude.Text.{Bytes}
use goichi.Prelude.Int.{ℤ, pos, negsuc}
use goichi.Http
use goichi.Http.{Context, Outcome, Handler, call, lookup}

pub record Visitor : Type 0 where
  pub count : ℕ
  pub reset_at : ℕ

abbrev pub Visitors : Type 0
Visitors = List (Bytes × Visitor)

-- now.After(t)
abbrev pub after : ℕ → ℕ → Bool
after now t = ltb t now

-- LoadOrStore of a new visitor.
unfoldable pub get_visitor : Bytes → ℕ → ℕ → Visitors → Visitors × Visitor
get_visitor ip window now vs = elim (lookup ip vs) [
  | some v ↦ (vs, v)
  | none ↦
      let v : Visitor = record { count = 0; reset_at = now + window } in (Http.insert ip v vs, v)
]

-- The count after this request, in the next window where the last one has ended.
unfoldable pub hit : ℕ → ℕ → Visitor → Visitor
hit window now v =
    if after now v.reset_at
    then record { count = 1; reset_at = now + window }
    else record v { count = suc v.count }

-- v.count > limit
abbrev pub exceeds : ℕ → ℤ → Bool
exceeds n (pos limit) = ltb limit n
exceeds n (negsuc limit) = true

-- Whether a request is over the limit; the clock is read at its start and under the lock.
unfoldable pub admit : ℤ → ℕ → Bytes → ℕ → ℕ → Visitors → Visitors × Bool
admit limit window ip now now' vs =
    let (vs', v) = get_visitor ip window now vs in
    let v' = hit window now' v in (Http.insert ip v' vs', exceeds v'.count limit)

-- The visitors that the ticker deletes.
unfoldable pub sweep : ℕ → Visitors → Visitors
sweep now [] = []
sweep now ((ip, v) ∷ vs) =
    let rest = sweep now vs in if after now v.reset_at then rest else (ip, v) ∷ rest

-- The handler; `too_many` is the JSON answer with status 429.
unfoldable pub rate_limit :
    {C : Type 0}
    → (Context C → Outcome C)
    → ℤ
    → ℕ
    → Handler C
    → Bytes
    → ℕ
    → ℕ
    → Visitors
    → Context C
    → Visitors × Outcome C
unfolding admit get_visitor hit lookup Http.insert
rate_limit too_many limit window next ip now now' vs c =
    let (vs', over) = admit limit window ip now now' vs in
    (vs', if over then too_many c else call next c)
