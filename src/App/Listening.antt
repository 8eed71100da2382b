-- ===== src/App/Listening.antt =====
-- app.go: Listen and ListenGraceful, by what they do in which order. What the system answers is an
-- argument, and so are what prepare gives and how the wait ends; H is a function of OnShutdown. What is
-- only logged is left out.
pub mod Shutdown
mod Tests
use goichi.Prelude.{
  ℕ, Bool, true, false, not, ◌&&◌, ◌||◌, Option, none, some, List, [], ◌∷◌, ◌++◌, map,
  if◌then◌else◌, is_empty,
}
use goichi.Prelude.Text.{Bytes, codes, bytes_eq}
use goichi.App.Settings.{ServerConfig}
use goichi.App.Supervisor.{check_multiprocess}

-- Goroutines are started by start_protocols, serve and serve_mux. A listener is bound with SO_REUSEPORT or
-- without; a stop and a shutdown have their seconds.
pub data Action (H : Type 0) : Type 0 where
  bind : (reuse_port : Bool) → Action H
  inject : (name : Bytes) → Action H
  start_protocols : Action H
  serve : (tls : Bool) → Action H
  serve_mux close_mux supervise : Action H
  stop_protocols shutdown : (seconds : ℕ) → Action H
  run_hook : H → Action H

-- How the wait ends: with what the server, or in Listen the multiplexer, gives, or by a signal, with the
-- error of the shutdown that follows.
pub data Ending : Type 0 where
  finished : Option Bytes → Ending
  signalled : Option Bytes → Ending

-- What the calls give: the errors of prepare and of binding the address, and the end of the wait.
pub record World : Type 0 where
  pub prepare_error : Option Bytes
  pub bind_error : Option Bytes
  pub ending : Ending

-- What the app has: its settings, the names of its protocols and its hooks.
pub record Ready (H : Type 0) : Type 0 where
  pub config : ServerConfig
  pub names : List Bytes
  pub on_shutdown : List H

-- TLSEnabled of the server's settings.
abbrev pub has_tls : ServerConfig → Bool
has_tls c = not (is_empty c.tls_cert_file) && not (is_empty c.tls_key_file)

module _ {H : Type 0} where
  unfoldable pub add_hooks : List H → Ready H → Ready H
  add_hooks f a = record a { on_shutdown = a.on_shutdown ++ f }

  abbrev pub run_shutdown_hooks : List H → List (Action H)
  run_shutdown_hooks hooks = map run_hook hooks

  -- The protocols that take a listener of the multiplexer.
  unfoldable pub inject_listeners : List Bytes → List (Action H)
  inject_listeners [] = []
  inject_listeners (name ∷ names) =
      if bytes_eq name (codes "grpc") || bytes_eq name (codes "mqtt")
      then inject name ∷ inject_listeners names
      else inject_listeners names

  abbrev pub when : Bool → List (Action H) → List (Action H)
  when b actions = if b then actions else []

  -- What follows a signal, with so many seconds.
  abbrev pub shut_down : ℕ → Ready H → List (Action H)
  shut_down seconds a =
      when a.config.enable_port_multiplexing (close_mux ∷ [])
      ++ (stop_protocols seconds ∷ shutdown seconds ∷ run_shutdown_hooks a.on_shutdown)

  abbrev pub ended : ℕ → Ready H → Ending → List (Action H) × Option Bytes
  ended seconds a (finished err) = ([], err)
  ended seconds a (signalled err) = (shut_down seconds a, err)

  abbrev pub then_actions :
      List (Action H) → List (Action H) × Option Bytes → List (Action H) × Option Bytes
  then_actions before (actions, err) = (before ++ actions, err)

  -- Once the address is bound, until the wait.
  abbrev pub set_up : Ready H → List (Action H)
  set_up a =
      let muxed = a.config.enable_port_multiplexing in
      bind false
      ∷ (when muxed (inject_listeners a.names)
          ++ (start_protocols ∷ serve (has_tls a.config) ∷ when muxed (serve_mux ∷ [])))

  abbrev pub failing :
      Option Bytes → List (Action H) × Option Bytes → List (Action H) × Option Bytes
  failing (some err) rest = ([], some err)
  failing none rest = rest

  unfoldable pub listen : Ready H → World → List (Action H) × Option Bytes
  unfolding inject_listeners
  listen a w =
      failing w.prepare_error (failing w.bind_error (then_actions (set_up a) (ended 5 a w.ending)))

  -- The multiplexer is served before the protocols are started, and its error is lost.
  abbrev pub set_up_gracefully : Ready H → List (Action H)
  set_up_gracefully a =
      bind a.config.multiprocess
      ∷ (when a.config.enable_port_multiplexing (inject_listeners a.names ++ serve_mux ∷ [])
          ++ (start_protocols ∷ serve (has_tls a.config) ∷ []))

  -- Whether the process is a child; the platform's support and name; the error of supervising, in which the
  -- master stays until a signal.
  unfoldable pub listen_graceful :
      (is_child supported : Bool) (goos : Bytes) (supervised : Option Bytes)
      → Ready H
      → World
      → List (Action H) × Option Bytes
  unfolding inject_listeners
  listen_graceful is_child supported goos supervised a w =
      let in_process =
        failing w.prepare_error
          (failing w.bind_error (then_actions (set_up_gracefully a) (ended 10 a w.ending))) in
      if a.config.multiprocess
      then failing (check_multiprocess supported goos a.config)
          (if is_child then in_process else (supervise ∷ [], supervised))
      else in_process
