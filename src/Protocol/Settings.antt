-- ===== src/Protocol/Settings.antt =====
-- The settings of the protocol servers: config.go of protocol/mqtt, mcp, websocket, graphql and grpc.
use goichi.Prelude.{suc, ◌*◌, ◌/◌, Bool, true, not, List, if◌then◌else◌}
use goichi.Prelude.Text.{Bytes, codes}
use goichi.Prelude.Int.{ℤ, pos, negsuc, positive_or, negated}
use goichi.Protocol.{ProtocolConfig, or_text, or_number, filled}

pub record MqttConfig : Type 0 where
  pub base : ProtocolConfig
  pub broker_path : Bytes
  pub max_message_size : ℤ
  pub keep_alive : ℤ
  pub max_queued_messages : ℤ
  pub auth_enabled : Bool
  pub allow_anonymous : Bool
  pub max_connections : ℤ

unfoldable pub mqtt_defaults : MqttConfig → MqttConfig
unfolding filled
mqtt_defaults c = record c {
  base = filled (codes "0.0.0.0") (pos 1883) c.base;
  broker_path = or_text (codes "/mqtt") c.broker_path;
  max_message_size = or_number (pos 262144) c.max_message_size;
  keep_alive = or_number (pos 60) c.keep_alive;
  max_queued_messages = or_number (pos 1000) c.max_queued_messages;
  max_connections = or_number (pos 5000) c.max_connections;
  allow_anonymous = if not c.auth_enabled then true else c.allow_anonymous;
}

pub record McpConfig : Type 0 where
  pub base : ProtocolConfig
  pub max_tool_count : ℤ
  pub max_resource_count : ℤ
  pub timeout : ℤ
  pub max_request_bytes : ℤ
  pub require_auth : Bool

unfoldable pub mcp_defaults : McpConfig → McpConfig
unfolding filled
mcp_defaults c = record c {
  base = filled (codes "0.0.0.0") (pos 8083) c.base;
  max_tool_count = or_number (pos 100) c.max_tool_count;
  max_resource_count = or_number (pos 100) c.max_resource_count;
  timeout = or_number (pos 30) c.timeout;
  max_request_bytes = pos (positive_or 1048576 c.max_request_bytes);
}

pub record WebSocketConfig : Type 0 where
  pub base : ProtocolConfig
  pub path : Bytes
  pub max_connections : ℤ
  pub read_buffer_size : ℤ
  pub write_buffer_size : ℤ
  pub handshake_timeout : ℤ
  pub ping_interval : ℤ
  pub pong_wait : ℤ
  pub allowed_origins : List Bytes
  pub require_auth : Bool

-- (n * 9) / 10, which rounds to zero; the product of an int64 is taken not to wrap.
abbrev pub nine_tenths : ℤ → ℤ
nine_tenths (pos n) = pos (n * 9 / 10)
nine_tenths (negsuc n) = negated (suc n * 9 / 10)

unfoldable pub websocket_defaults : WebSocketConfig → WebSocketConfig
unfolding filled
websocket_defaults c =
    let wait = or_number (pos 60) c.pong_wait in
    record c {
      base = filled (codes "0.0.0.0") (pos 8080) c.base;
      path = or_text (codes "/ws") c.path;
      max_connections = or_number (pos 1000) c.max_connections;
      read_buffer_size = or_number (pos 1024) c.read_buffer_size;
      write_buffer_size = or_number (pos 1024) c.write_buffer_size;
      handshake_timeout = or_number (pos 5) c.handshake_timeout;
      pong_wait = wait;
      ping_interval = or_number (nine_tenths wait) c.ping_interval;
    }

pub record GraphQlConfig : Type 0 where
  pub base : ProtocolConfig
  pub query_path : Bytes
  pub playground_path : Bytes
  pub max_query_depth : ℤ
  pub timeout : ℤ
  pub max_complexity : ℤ
  pub enable_playground : Bool
  pub enable_introspection : Bool
  pub require_auth : Bool

abbrev pub hundredfold : ℤ → ℤ
hundredfold (pos n) = pos (n * 100)
hundredfold (negsuc n) = negated (suc n * 100)

unfoldable pub graphql_defaults : GraphQlConfig → GraphQlConfig
unfolding filled
graphql_defaults c =
    let depth = or_number (pos 10) c.max_query_depth in
    record c {
      base = filled (codes "0.0.0.0") (pos 8081) c.base;
      query_path = or_text (codes "/graphql") c.query_path;
      playground_path = or_text (codes "/graphql/playground") c.playground_path;
      max_query_depth = depth;
      timeout = or_number (pos 30) c.timeout;
      max_complexity = or_number (hundredfold depth) c.max_complexity;
      enable_introspection = if c.enable_playground then true else c.enable_introspection;
    }

pub record GrpcConfig : Type 0 where
  pub base : ProtocolConfig
  pub max_concurrent_streams : ℤ
  pub max_recv_msg_size : ℤ
  pub max_send_msg_size : ℤ
  pub keepalive_time : ℤ

unfoldable pub grpc_defaults : GrpcConfig → GrpcConfig
unfolding filled
grpc_defaults c = record c {
  base = filled (codes "0.0.0.0") (pos 8082) c.base;
  max_concurrent_streams = or_number (pos 100) c.max_concurrent_streams;
  max_recv_msg_size = or_number (pos 4194304) c.max_recv_msg_size;
  max_send_msg_size = or_number (pos 4194304) c.max_send_msg_size;
  keepalive_time = or_number (pos 7200) c.keepalive_time;
}
