-- ===== src/App/Listening/Shutdown.antt =====
-- When the hooks of OnShutdown run.
use goichi.Prelude.{
  ℕ, ◌≡◌, refl, ap, ◌∙◌, Bool, true, false, not, ◌&&◌, Option, none, some, List, [], ◌∷◌, ◌++◌,
  arith, if◌then◌else◌, is_some,
}
use goichi.Prelude.Text.{Bytes}
use goichi.App.Supervisor.{check_multiprocess}
use goichi.App.Listening.{
  Action, bind, start_protocols, serve, serve_mux, close_mux, supervise, run_hook, Ending, finished,
  signalled, World, Ready, has_tls, run_shutdown_hooks, inject_listeners, when, shut_down, ended,
  then_actions, set_up, failing, listen, set_up_gracefully, listen_graceful,
}

abbrev stops : Option Bytes → Option Bytes → Ending → Bool
stops none none (signalled err) = true
stops _ _ _ = false

-- A process serves and is stopped by a signal.
abbrev pub is_stopped : World → Bool
is_stopped w = stops w.prepare_error w.bind_error w.ending

module _ {H : Type 0} where
  -- The functions that were run, in their order.
  abbrev pub hooks_run : List (Action H) → List H
  hooks_run [] = []
  hooks_run (run_hook h ∷ actions) = h ∷ hooks_run actions
  hooks_run (action ∷ actions) = hooks_run actions

  hooks_run-append : (xs ys : List (Action H)) → hooks_run (xs ++ ys) ≡ hooks_run xs ++ hooks_run ys
  hooks_run-append [] ys = refl
  hooks_run-append (run_hook h ∷ xs) ys = ap (λ hs. h ∷ hs) (hooks_run-append xs ys)
  hooks_run-append (bind r ∷ xs) ys = hooks_run-append xs ys
  hooks_run-append (_ ∷ xs) ys = hooks_run-append xs ys

  hooks_run-hooks : (hooks : List H) → hooks_run (run_shutdown_hooks hooks) ≡ hooks
  hooks_run-hooks [] = refl
  hooks_run-hooks (h ∷ hooks) = ap (λ hs. h ∷ hs) (hooks_run-hooks hooks)

  hooks_run-inject : (names : List Bytes) → hooks_run (inject_listeners names) ≡ []
  unfolding inject_listeners
  hooks_run-inject [] = refl
  hooks_run-inject (name ∷ names) = ground (arith, hooks_run-inject names)

  hooks_run-when :
      (b : Bool) (actions : List (Action H))
      → hooks_run actions ≡ []
      → hooks_run (when b actions) ≡ []
  hooks_run-when true actions h = h
  hooks_run-when false actions h = refl

  -- The hooks that run where a process is stopped.
  abbrev pub expected : Bool → List H → List H
  expected b hooks = if b then hooks else []

  hooks_run-shut_down :
      (seconds : ℕ) (a : Ready H) → hooks_run (shut_down seconds a) ≡ a.on_shutdown
  hooks_run-shut_down seconds a =
      hooks_run-append (when a.config.enable_port_multiplexing (close_mux ∷ [])) _
      ∙ ap (λ hs. hs ++ hooks_run (run_shutdown_hooks a.on_shutdown))
          (hooks_run-when a.config.enable_port_multiplexing (close_mux ∷ []) refl)
      ∙ hooks_run-hooks a.on_shutdown

  -- Actions without a hook, and then the end of the wait.
  hooks_run-ended :
      (seconds : ℕ) (a : Ready H) (before : List (Action H)) (e : Ending)
      → hooks_run before ≡ []
      → hooks_run (then_actions before (ended seconds a e)).0
        ≡ expected (stops none none e) a.on_shutdown
  hooks_run-ended seconds a before (finished err) h =
      hooks_run-append before [] ∙ ap (λ hs. hs ++ []) h
  hooks_run-ended seconds a before (signalled err) h =
      hooks_run-append before (shut_down seconds a)
      ∙ ap (λ hs. hs ++ hooks_run (shut_down seconds a)) h
      ∙ hooks_run-shut_down seconds a

  hooks_run-set_up : (a : Ready H) → hooks_run (set_up a) ≡ []
  hooks_run-set_up a =
      let muxed = a.config.enable_port_multiplexing in
      hooks_run-append (when muxed (inject_listeners a.names))
        (start_protocols ∷ serve (has_tls a.config) ∷ when muxed (serve_mux ∷ []))
      ∙ ap (λ hs. hs ++ hooks_run (when muxed (serve_mux ∷ [])))
          (hooks_run-when muxed (inject_listeners a.names) (hooks_run-inject a.names))
      ∙ hooks_run-when muxed (serve_mux ∷ []) refl

  hooks_run-set_up_gracefully : (a : Ready H) → hooks_run (set_up_gracefully a) ≡ []
  hooks_run-set_up_gracefully a =
      let muxed = a.config.enable_port_multiplexing in
      hooks_run-append (when muxed (inject_listeners a.names ++ serve_mux ∷ []))
        (start_protocols ∷ serve (has_tls a.config) ∷ [])
      ∙ ap (λ hs. hs ++ [])
          (hooks_run-when muxed (inject_listeners a.names ++ serve_mux ∷ []) (
            hooks_run-append (inject_listeners a.names) (serve_mux ∷ [])
            ∙ ap (λ hs. hs ++ []) (hooks_run-inject a.names)))

  hooks_run-failing :
      (prepared bound : Option Bytes) (e : Ending) (hooks : List H)
      (rest : List (Action H) × Option Bytes)
      → hooks_run rest.0 ≡ expected (stops none none e) hooks
      → hooks_run (failing prepared (failing bound rest)).0
        ≡ expected (stops prepared bound e) hooks
  hooks_run-failing none none e hooks rest h = h
  hooks_run-failing none (some err) e hooks rest h = refl
  hooks_run-failing (some err) bound e hooks rest h = refl

  hooks_run-choice :
      (multiprocess : Bool) (err : Option Bytes) (is_child stopped : Bool) (hooks : List H)
      (supervised : Option Bytes) (rest : List (Action H) × Option Bytes)
      → hooks_run rest.0 ≡ expected stopped hooks
      → hooks_run
          (if multiprocess
            then failing err (if is_child then rest else (supervise ∷ [], supervised))
            else rest).0
        ≡ expected ((if multiprocess then not (is_some err) && is_child else true) && stopped) hooks
  hooks_run-choice true none true stopped hooks supervised rest h = h
  hooks_run-choice true none false stopped hooks supervised rest h = refl
  hooks_run-choice true (some err) is_child stopped hooks supervised rest h = refl
  hooks_run-choice false err is_child stopped hooks supervised rest h = h

  -- Whether ListenGraceful serves in this process.
  abbrev pub serves_here : Bool → Bool → Bytes → Ready H → Bool
  serves_here is_child supported goos a =
      if a.config.multiprocess
      then not (is_some (check_multiprocess supported goos a.config)) && is_child
      else true

  -- Both ways to listen run every function of OnShutdown once and in its order exactly where the process
  -- serves, with a configuration that is prepared and an address that is bound, and a signal ends it,
  -- whatever the shutdown of the server gives; otherwise they run none. The master of the multiprocess
  -- model runs none.
  pub hooks_run-listen :
      (is_child supported : Bool) (goos : Bytes) (supervised : Option Bytes) (a : Ready H)
      (w : World)
      → (hooks_run (listen a w).0 ≡ expected (is_stopped w) a.on_shutdown)
        × (hooks_run (listen_graceful is_child supported goos supervised a w).0
            ≡ expected (serves_here is_child supported goos a && is_stopped w) a.on_shutdown)
  unfolding listen listen_graceful
  hooks_run-listen is_child supported goos supervised a w =
      let here =
        hooks_run-failing w.prepare_error w.bind_error w.ending a.on_shutdown
          (then_actions (set_up_gracefully a) (ended 10 a w.ending))
          (hooks_run-ended 10 a (set_up_gracefully a) w.ending (hooks_run-set_up_gracefully a)) in
      (
        hooks_run-failing w.prepare_error w.bind_error w.ending a.on_shutdown
            (then_actions (set_up a) (ended 5 a w.ending))
            (hooks_run-ended 5 a (set_up a) w.ending (hooks_run-set_up a)),
        hooks_run-choice a.config.multiprocess (check_multiprocess supported goos a.config) is_child
            (is_stopped w) a.on_shutdown supervised
            (failing w.prepare_error
              (failing w.bind_error (then_actions (set_up_gracefully a) (ended 10 a w.ending))))
            here,
      )
