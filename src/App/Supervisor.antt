-- ===== src/App/Supervisor.antt =====
-- app.go and app_unix.go: the master of the multiprocess model, its children and what it does when one of
-- them exits. What exec and Wait4 give is an argument; the children are the keys of the map.
pub mod Census
mod Tests
use goichi.Prelude.{
  ℕ, zero, suc, ◌-◌, Bool, true, false, not, ◌&&◌, Option, none, some, List, [], ◌∷◌, ◌++◌, ◌==◌,
  any, if◌then◌else◌,
}
use goichi.Prelude.Text.{Bytes, codes}
use goichi.Prelude.Int.{ℤ, positive_or}
use goichi.App.Settings.{ServerConfig}

abbrev pub Children : Type 0
Children = List ℕ

abbrev pub is_child : ℕ → Children → Bool
is_child pid children = any (λ p. p == pid) children

-- children[pid] = "active"
unfoldable pub add_child : ℕ → Children → Children
add_child pid children = if is_child pid children then children else pid ∷ children

-- delete(children, pid)
unfoldable pub delete_child : ℕ → Children → Children
delete_child pid [] = []
delete_child pid (p ∷ children) =
    let rest = delete_child pid children in if p == pid then rest else p ∷ rest

-- The number of children to start, by the setting and the number of processors.
abbrev pub wanted : ServerConfig → ℕ → ℕ
wanted config cpus = positive_or cpus config.num_children

-- The children that were started, and whether all were.
pub data Spawned : Type 0 where
  all_started : Children → Spawned
  failed_at : ℕ → Children → Spawned

-- `none` is a child that cannot be started; those before it run on.
unfoldable pub spawn_all : (left i : ℕ) → (ℕ → Option ℕ) → Children → Spawned
unfolding add_child
spawn_all zero i spawn children = all_started children
spawn_all (suc left) i spawn children = elim (spawn i) [
  | none ↦ failed_at i children
  | some pid ↦ spawn_all left (suc i) spawn (add_child pid children)
]

unfoldable pub restart_child : Option ℕ → Children → Children
unfolding add_child
restart_child none children = children
restart_child (some pid) children = add_child pid children

-- What Wait4 gives: a process that has exited, with the outcome of a spawn that follows; an interruption;
-- or any other error, after which the monitor ends.
pub data Wait : Type 0 where
  exited : ℕ → Option ℕ → Wait
  interrupted failed : Wait

pub record Monitor : Type 0 where
  pub children : Children
  pub is_waiting : Bool

unfoldable pub on_wait : Wait → Monitor → Monitor
unfolding delete_child restart_child
on_wait (exited pid spawned) m =
    if m.is_waiting && is_child pid m.children
    then record m { children = restart_child spawned (delete_child pid m.children) }
    else m
on_wait interrupted m = m
on_wait failed m = record m { is_waiting = false }

abbrev pub start_monitor : Children → Monitor
start_monitor children = record { children = children; is_waiting = true }

abbrev unsupported : Bytes → Bytes
unsupported goos =
    codes "server.multiprocess requires SO_REUSEPORT, which "
    ++ (goos
        ++ codes
            " does not provide: run a single process, or put several instances behind a load balancer")

-- The error of a configuration in which the model cannot work.
unfoldable pub check_multiprocess : Bool → Bytes → ServerConfig → Option Bytes
check_multiprocess supported goos config =
    if config.enable_port_multiplexing
    then some (
        codes
          "server.multiprocess cannot be combined with server.enablePortMultiplexing: each child would demultiplex its own connections and run its own protocol servers, so broker subscriptions and sessions would be split across processes")
    else if not supported
    then some (unsupported goos)
    else none
