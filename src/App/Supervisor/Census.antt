-- ===== src/App/Supervisor/Census.antt =====
-- How many children run under a master.
use goichi.Prelude.{
  ℕ, zero, suc, ◌+◌, ◌≡◌, refl, sym, ap, subst, true, false, ◌&&◌, Option, none, some, List, [],
  ◌∷◌, ◌==◌, length, arith, inl, inr, Bool-cases, Option-cases, if◌then◌else◌,
}
use goichi.App.Supervisor.{
  Children, is_child, add_child, delete_child, all_started, failed_at, spawn_all, restart_child,
  Wait, exited, interrupted, failed, Monitor, on_wait, start_monitor,
}

abbrev AreDistinct : Children → Type 0
AreDistinct [] = Unit
AreDistinct (p ∷ ps) = (is_child p ps ≡ false) × AreDistinct ps

-- The system gives a process that is started an id that none of the children has.
abbrev IsNew : Option ℕ → Children → Type 0
IsNew none children = Unit
IsNew (some pid) children = is_child pid children ≡ false

abbrev IsNewAfter : Wait → Children → Type 0
IsNewAfter (exited pid spawned) children = IsNew spawned (delete_child pid children)
IsNewAfter interrupted children = Unit
IsNewAfter failed children = Unit

abbrev pub run : List Wait → Monitor → Monitor
run [] m = m
run (w ∷ ws) m = run ws (on_wait w m)

abbrev pub AllNew : List Wait → Monitor → Type 0
AllNew [] m = Unit
AllNew (w ∷ ws) m = IsNewAfter w m.children × AllNew ws (on_wait w m)

-- Whether a child has exited and no other could be started.
abbrev lost : Wait → Monitor → ℕ
lost (exited pid none) m = if m.is_waiting && is_child pid m.children then 1 else 0
lost _ m = 0

abbrev pub all_lost : List Wait → Monitor → ℕ
all_lost [] m = 0
all_lost (w ∷ ws) m = lost w m + all_lost ws (on_wait w m)

abbrev pub AllNewSpawns : (left i : ℕ) → (ℕ → Option ℕ) → Children → Type 0
AllNewSpawns zero i spawn children = Unit
AllNewSpawns (suc left) i spawn children =
    IsNew (spawn i) children × AllNewSpawns left (suc i) spawn (restart_child (spawn i) children)

delete_child-absent : (pid : ℕ) (ps : Children) → is_child pid ps ≡ false → delete_child pid ps ≡ ps
unfolding delete_child
delete_child-absent pid [] h = refl
delete_child-absent pid (p ∷ ps) h = ground (arith, h, delete_child-absent pid ps)

length-delete_child :
    (pid : ℕ) (ps : Children)
    → AreDistinct ps
    → is_child pid ps ≡ true
    → suc (length (delete_child pid ps)) ≡ length ps
unfolding delete_child
length-delete_child pid [] d h = cc h
length-delete_child pid (p ∷ ps) d h = elim (Bool-cases (p == pid)) [
  | inl same ↦
      let gone : is_child pid ps ≡ false = ground (arith, same, d.0) in
      rw same (ap (λ qs. suc (length qs)) (delete_child-absent pid ps gone))
  | inr other ↦ rw other (ap suc (length-delete_child pid ps d.1 (ground (arith, other, h))))
]

is_child-delete_child :
    (q pid : ℕ) (ps : Children) → is_child q ps ≡ false → is_child q (delete_child pid ps) ≡ false
unfolding delete_child
is_child-delete_child q pid [] h = refl
is_child-delete_child q pid (p ∷ ps) h = ground (arith, h, is_child-delete_child q pid ps)

delete_child-AreDistinct :
    (pid : ℕ) (ps : Children) → AreDistinct ps → AreDistinct (delete_child pid ps)
unfolding delete_child
delete_child-AreDistinct pid [] d = tt
delete_child-AreDistinct pid (p ∷ ps) d = elim (Bool-cases (p == pid)) [
  | inl same ↦ rw same (delete_child-AreDistinct pid ps d.1)
  | inr other ↦ rw other (is_child-delete_child p pid ps d.0, delete_child-AreDistinct pid ps d.1)
]

add_child-new : (pid : ℕ) (ps : Children) → is_child pid ps ≡ false → add_child pid ps ≡ pid ∷ ps
unfolding add_child
add_child-new pid ps h = rw h refl

restart_child-AreDistinct :
    (spawned : Option ℕ) (ps : Children)
    → IsNew spawned ps
    → AreDistinct ps
    → AreDistinct (restart_child spawned ps)
unfolding restart_child
restart_child-AreDistinct none ps new d = d
restart_child-AreDistinct (some pid) ps new d = rw (add_child-new pid ps new) (new, d)

-- One event keeps the number of children and of those lost together.
on_wait-census :
    (w : Wait) (m : Monitor)
    → IsNewAfter w m.children
    → AreDistinct m.children
    → AreDistinct (on_wait w m).children
      × (length (on_wait w m).children + lost w m ≡ length m.children)
unfolding on_wait restart_child
on_wait-census interrupted m new d = (d, omega arith)
on_wait-census failed m new d = (d, omega arith)
on_wait-census (exited pid none) m new d =
    elim (Bool-cases (m.is_waiting && is_child pid m.children)) [
      | inl ours ↦ rw ours (
        delete_child-AreDistinct pid m.children d,
        omega (arith, length-delete_child pid m.children d (ground (arith, ours))),
      )
      | inr not_ours ↦ rw not_ours (d, omega arith)
    ]
on_wait-census (exited pid (some q)) m new d =
    elim (Bool-cases (m.is_waiting && is_child pid m.children)) [
      | inl ours ↦ rw ours (
        restart_child-AreDistinct (some q) (delete_child pid m.children) new
            (delete_child-AreDistinct pid m.children d),
        rw (add_child-new q (delete_child pid m.children) new)
            (omega (arith, length-delete_child pid m.children d (ground (arith, ours)))),
      )
      | inr not_ours ↦ rw not_ours (d, omega arith)
    ]

run-census :
    (ws : List Wait) (m : Monitor)
    → AllNew ws m
    → AreDistinct m.children
    → length (run ws m).children + all_lost ws m ≡ length m.children
run-census [] m new d = omega arith
run-census (w ∷ ws) m new d =
    let (d', kept) = on_wait-census w m new.0 d in
    omega (arith, kept, run-census ws (on_wait w m) new.1 d')

spawn_all-census :
    (left i : ℕ) (spawn : ℕ → Option ℕ) (ps cs : Children)
    → AllNewSpawns left i spawn ps
    → AreDistinct ps
    → spawn_all left i spawn ps ≡ all_started cs
    → AreDistinct cs × (length cs ≡ left + length ps)
unfolding spawn_all restart_child
spawn_all-census zero i spawn ps cs new d e =
    let same : ps ≡ cs = cc e in
    subst (λ qs. AreDistinct qs × (length qs ≡ 0 + length ps)) same (d, omega arith)
spawn_all-census (suc left) i spawn ps cs new d e = elim (Option-cases (spawn i)) [
  | inl none_left ↦
      let stopped : failed_at i ps ≡ all_started cs = rw (none_left, spawn_all) at e in cc stopped
  | inr (pid, started) ↦
      let fresh : is_child pid ps ≡ false = subst (λ o. IsNew o ps) started new.0 in
      let added : add_child pid ps ≡ pid ∷ ps = add_child-new pid ps fresh in
      let later : AllNewSpawns left (suc i) spawn (add_child pid ps) =
        subst (λ o. AllNewSpawns left (suc i) spawn (restart_child o ps)) started new.1 in
      let (distinct, count) =
        spawn_all-census left (suc i) spawn (add_child pid ps) cs later
          (subst AreDistinct (sym added) (fresh, d)) (rw (started, spawn_all) at e) in
      (distinct, omega (arith, count, ap length added))
]

-- A master whose children were all started has as many children as it wanted less those that have exited
-- when no other could be started, whatever Wait4 gives, if the system gives each process an id that no
-- child has.
pub supervised-census :
    (num : ℕ) (spawn : ℕ → Option ℕ) (cs : Children) (ws : List Wait)
    → AllNewSpawns num 0 spawn []
    → AllNew ws (start_monitor cs)
    → spawn_all num 0 spawn [] ≡ all_started cs
    → length (run ws (start_monitor cs)).children + all_lost ws (start_monitor cs) ≡ num
supervised-census num spawn cs ws new new_later e =
    let (distinct, count) = spawn_all-census num 0 spawn [] cs new tt e in
    omega (arith, count, run-census ws (start_monitor cs) new_later distinct)
