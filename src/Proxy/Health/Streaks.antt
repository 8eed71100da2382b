-- ===== src/Proxy/Health/Streaks.antt =====
-- When the probes change a target's health.
use goichi.Prelude.{
  ℕ, zero, suc, ◌≤◌, ◌<◌, ◌≡◌, refl, Bool, true, false, not, ◌||◌, List, [], ◌∷◌, leb,
  if◌then◌else◌, arith, inl, inr, Bool-cases,
}
use goichi.Prelude.Int.{ℤ, pos, negsuc, positive_or}
use goichi.Proxy.Balancer.{Target}
use goichi.Proxy.Health.{HealthCheck, Settings, set_defaults, apply_probe}

-- The number of results in a row that change the health of a target that is in the given one.
abbrev pub threshold : Settings → Bool → ℕ
threshold cfg true = cfg.fail_threshold
threshold cfg false = cfg.success_threshold

abbrev pub Positive : Settings → Type 0
Positive cfg = (1 ≤ cfg.fail_threshold) × (1 ≤ cfg.success_threshold)

-- The counter of a target is below the threshold for its health.
abbrev pub IsWithin : Settings → Target → Type 0
IsWithin cfg t = t.fails < threshold cfg t.healthy

positive_or-positive : (d : ℕ) (z : ℤ) → 1 ≤ d → 1 ≤ positive_or d z
positive_or-positive d (pos zero) h = omega arith
positive_or-positive d (pos (suc n)) h = omega arith
positive_or-positive d (negsuc n) h = omega arith

pub set_defaults-Positive : (h : HealthCheck) → Positive (set_defaults h)
unfolding set_defaults
set_defaults-Positive h = (
  positive_or-positive 3 h.fail_threshold (omega arith),
  positive_or-positive 1 h.success_threshold (omega arith),
)

abbrev pub probes : Settings → List Bool → Target → Target
probes cfg [] t = t
probes cfg (ok ∷ oks) t = probes cfg oks (apply_probe cfg ok t)

apply_probe-IsWithin :
    (cfg : Settings) (ok : Bool) (t : Target)
    → Positive cfg
    → IsWithin cfg t
    → IsWithin cfg (apply_probe cfg ok t)
unfolding apply_probe
apply_probe-IsWithin cfg ok t p w = elim (Bool-cases t.healthy) [
  | inl h ↦ ground (arith, h)
  | inr h ↦ ground (arith, h)
]

-- A run of `k` results `bad` is in the list, where `n` of them came just before it.
abbrev pub has_run : Bool → ℕ → ℕ → List Bool → Bool
has_run bad k n [] = false
has_run bad k n (ok ∷ oks) =
    if (if ok then bad else not bad)
    then leb k (suc n) || has_run bad k (suc n) oks
    else has_run bad k 0 oks

-- The health of a target at some point of its probes.
abbrev pub ever : Bool → Settings → List Bool → Target → Bool
ever health cfg [] t = if t.healthy then health else not health
ever health cfg (ok ∷ oks) t =
    (if t.healthy then health else not health) || ever health cfg oks (apply_probe cfg ok t)

ever-now :
    (health : Bool) (cfg : Settings) (oks : List Bool) (t : Target)
    → t.healthy ≡ health
    → ever health cfg oks t ≡ true
ever-now true cfg [] t h = rw h refl
ever-now true cfg (ok ∷ oks) t h = rw h refl
ever-now false cfg [] t h = rw h refl
ever-now false cfg (ok ∷ oks) t h = rw h refl

-- A healthy target is taken out of rotation at some probe exactly if fail_threshold probes in a row
-- fail, counting those that its counter already holds.
pub ever-down :
    (cfg : Settings) (oks : List Bool) (t : Target)
    → t.healthy ≡ true
    → ever false cfg oks t ≡ has_run false cfg.fail_threshold t.fails oks
unfolding apply_probe
ever-down cfg [] t h = rw h refl
ever-down cfg (true ∷ oks) t h = ground (arith, ever-down cfg oks (record t { fails = 0 }), h)
ever-down cfg (false ∷ oks) t h = elim (Bool-cases (leb cfg.fail_threshold (suc t.fails))) [
  | inl at_last ↦
      ground
        (arith, at_last, h, ever-now false cfg oks (record t { fails = 0; healthy = false }) refl)
  | inr not_yet ↦ ground (arith, not_yet, h, ever-down cfg oks (record t { fails = suc t.fails }) h)
]

-- After any probes the counter of a target is below the threshold for its health, if it was before
-- and the thresholds are positive.
pub probes-IsWithin :
    (cfg : Settings) (oks : List Bool) (t : Target)
    → Positive cfg
    → IsWithin cfg t
    → IsWithin cfg (probes cfg oks t)
probes-IsWithin cfg [] t p w = w
probes-IsWithin cfg (ok ∷ oks) t p w =
    probes-IsWithin cfg oks (apply_probe cfg ok t) p (apply_probe-IsWithin cfg ok t p w)
