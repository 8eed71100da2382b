-- ===== src/App/Listening/Tests.antt =====
-- An app with two hooks and a gRPC server, in a process that a signal ends.
use goichi.Prelude.{ℕ, ◌≡◌, refl, true, false, none, some, [], ◌∷◌}
use goichi.Prelude.Text.{codes}
use goichi.Prelude.Int.{pos}
use goichi.App.Settings.{ServerConfig}
use goichi.App.Listening.{
  bind, inject, start_protocols, serve, serve_mux, close_mux, stop_protocols, shutdown, run_hook,
  signalled, World, Ready, listen, listen_graceful,
}
use goichi.App.Listening.Shutdown.{hooks_run, is_stopped, expected, hooks_run-listen}

abbrev config : ServerConfig
config = record {
  app_name = codes "app";
  multiprocess = false;
  num_children = pos 0;
  show_startup = none;
  startup_banner = [];
  enable_port_multiplexing = true;
  read_timeout = pos 0;
  write_timeout = pos 0;
  idle_timeout = pos 0;
  max_request_body_size = pos 0;
  tls_cert_file = [];
  tls_key_file = [];
}

abbrev app : Ready ℕ
app = record { config = config; names = codes "mcp" ∷ codes "grpc" ∷ []; on_shutdown = 1 ∷ 2 ∷ [] }

abbrev interrupted : World
interrupted = record {
  prepare_error = none;
  bind_error = none;
  ending = signalled (some (codes "deadline"));
}

hooks_run-listen_example :
    (hooks_run (listen app interrupted).0 ≡ expected (is_stopped interrupted) (1 ∷ 2 ∷ []))
    × (hooks_run (listen_graceful false true (codes "linux") none app interrupted).0 ≡ 1 ∷ 2 ∷ [])
hooks_run-listen_example = hooks_run-listen false true (codes "linux") none app interrupted

listened :
    (listen app interrupted).0
    ≡ bind false
      ∷ inject (codes "grpc")
      ∷ start_protocols
      ∷ serve false
      ∷ serve_mux
      ∷ close_mux
      ∷ stop_protocols 5
      ∷ shutdown 5
      ∷ run_hook 1
      ∷ run_hook 2
      ∷ []
unfolding listen
listened = refl
