-- ===== src/App/Supervisor/Tests.antt =====
-- A master of two children, one of which exits twice.
use goichi.Prelude.{ℕ, suc, ◌+◌, ◌≡◌, refl, Option, none, some, [], ◌∷◌, length}
use goichi.App.Supervisor.{exited, interrupted, on_wait, spawn_all, start_monitor}
use goichi.App.Supervisor.Census.{run, all_lost, supervised-census}

-- The system counts up.
abbrev ids : ℕ → Option ℕ
ids i = some (suc i)

supervised-census_example :
    length
        (run
          (exited 1 (some 7) ∷ interrupted ∷ exited 7 none ∷ [])
          (start_monitor (2 ∷ 1 ∷ []))).children
      + all_lost (exited 1 (some 7) ∷ interrupted ∷ exited 7 none ∷ []) (start_monitor (2 ∷ 1 ∷ []))
    ≡ 2
unfolding on_wait spawn_all
supervised-census_example =
    supervised-census 2 ids (2 ∷ 1 ∷ []) (exited 1 (some 7) ∷ interrupted ∷ exited 7 none ∷ [])
      (refl, (refl, tt)) (refl, (tt, (tt, tt))) refl

one_is_left :
    (run
      (exited 1 (some 7) ∷ interrupted ∷ exited 7 none ∷ [])
      (start_monitor (2 ∷ 1 ∷ []))).children
    ≡ 2 ∷ []
unfolding on_wait
one_is_left = refl
