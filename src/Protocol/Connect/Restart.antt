-- ===== src/Protocol/Connect/Restart.antt =====
-- What a server that was stopped serves when it is started again.
use goichi.Prelude.{◌≡◌, Bool, true, false, Option, none, some, arith, if◌then◌else◌}
use goichi.Prelude.Text.{Bytes}
use goichi.Protocol.{tls_enabled}
use goichi.Protocol.Connect.{ConnectServer, start, stop}

module _ {H : Type 0} where
  -- Start, Stop and Start again, where the port is free and the key pair can be loaded.
  abbrev pub restarted : Option Bytes → ConnectServer H → ConnectServer H × Bool
  restarted err cs = start true true (stop err (start true true cs).0).0

  -- A stopped server without an injected listener gives no error when it is started, stopped and
  -- started again, and says that it runs, whatever error Stop gave, but what it then serves is the
  -- listener that Stop has closed, under one more layer of TLS for each start where it has TLS.
  pub restarted-is_closed :
      (err : Option Bytes) (cs : ConnectServer H)
      → cs.is_running ≡ false
      → cs.listener ≡ none
      → ((restarted err cs).1 ≡ true)
        × ((restarted err cs).0.is_running ≡ true)
        × ((restarted err cs).0.serving
            ≡ some (record {
              tls_layers = (if tls_enabled cs.config.base then 2 else 0);
              is_closed = true;
            }))
  unfolding start stop
  restarted-is_closed err cs stopped absent = (ground arith, ground arith, ground arith)
