-- ===== src/Proxy/Health.antt =====
-- proxy/health.go: the settings of the health check and one round of probes.
pub mod Streaks
use goichi.Prelude.{
  ℕ, suc, ◌+◌, Bool, true, false, not, List, [], ◌∷◌, ◌++◌, ltb, leb, ◌==◌, if◌then◌else◌, is_empty,
}
use goichi.Prelude.Text.{Bytes, codes}
use goichi.Prelude.Int.{ℤ, positive_or}
use goichi.Proxy.Balancer.{Target, Balancer}

-- Durations are in nanoseconds.
pub record HealthCheck : Type 0 where
  pub enable : Bool
  pub interval : ℤ
  pub timeout : ℤ
  pub path : Bytes
  pub fail_threshold : ℤ
  pub success_threshold : ℤ

-- The settings after setDefaults.
pub record Settings : Type 0 where
  pub enable : Bool
  pub interval : ℕ
  pub timeout : ℕ
  pub path : Bytes
  pub fail_threshold : ℕ
  pub success_threshold : ℕ

unfoldable pub set_defaults : HealthCheck → Settings
set_defaults h = record {
  enable = h.enable;
  interval = positive_or 10000000000 h.interval;
  timeout = positive_or 2000000000 h.timeout;
  path = if is_empty h.path then codes "/" else h.path;
  fail_threshold = positive_or 3 h.fail_threshold;
  success_threshold = positive_or 1 h.success_threshold;
}

-- What one probe's result does to its target.
unfoldable pub apply_probe : Settings → Bool → Target → Target
apply_probe cfg ok t =
    let streak = suc t.fails in
    if ok
    then (if t.healthy
        then record t { fails = 0 }
        else if leb cfg.success_threshold streak
        then record t { fails = 0; healthy = true }
        else record t { fails = streak })
    else (if not t.healthy
        then record t { fails = 0 }
        else if leb cfg.fail_threshold streak
        then record t { fails = 0; healthy = false }
        else record t { fails = streak })

-- The probes of a round run in parallel, each on its own target.
unfoldable pub run_once : Settings → (Target → Bool) → List Target → List Target
unfolding apply_probe
run_once cfg probe [] = []
run_once cfg probe (t ∷ ts) = apply_probe cfg (probe t) t ∷ run_once cfg probe ts
