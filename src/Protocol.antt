-- ===== src/Protocol.antt =====
-- The package protocol: what every protocol server has.
pub mod Settings
pub mod Mcp
pub mod Mqtt
pub mod WebSocket
pub mod Grpc
pub mod Connect
pub mod GraphQl
pub mod Registry
mod Tests
mod RpcTests
use goichi.Prelude.{zero, suc, if◌then◌else◌, Bool, not, ◌&&◌, is_empty}
use goichi.Prelude.Text.{Bytes}
use goichi.Prelude.Int.{ℤ, pos, negsuc}

pub record ProtocolConfig : Type 0 where
  pub enabled : Bool
  pub port : ℤ
  pub address : Bytes
  pub tls_cert_file : Bytes
  pub tls_key_file : Bytes

abbrev pub tls_enabled : ProtocolConfig → Bool
tls_enabled c = not (is_empty c.tls_cert_file) && not (is_empty c.tls_key_file)

-- A setting, or its default where it is left at its zero value.
abbrev pub or_text : Bytes → Bytes → Bytes
or_text default s = if is_empty s then default else s

abbrev pub or_number : ℤ → ℤ → ℤ
or_number default (pos zero) = default
or_number default (pos (suc n)) = pos (suc n)
or_number default (negsuc n) = negsuc n

unfoldable pub filled : Bytes → ℤ → ProtocolConfig → ProtocolConfig
filled address port c = record c {
  address = or_text address c.address;
  port = or_number port c.port;
}
