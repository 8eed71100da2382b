-- ===== src/Proxy/Upgrade.antt =====
-- proxy/websocket.go, and hostPort of proxy/health.go: a request that asks to switch protocols, which is
-- passed on as raw bytes. Dialing, the two connections and the parsing of addresses are an interface.
pub mod Settled
use goichi.Prelude.{
  ℕ, Bool, true, false, ◌&&◌, Option, none, some, List, [], ◌∷◌, ◌++◌, if◌then◌else◌, is_empty, any,
  ltb,
}
use goichi.Prelude.Text.{Bytes, codes, equal_fold}
use goichi.Tree.{has_prefix}
use goichi.Protocol.WebSocket.{after_scheme}
use goichi.Proxy.Balancer.{Balancer, pick}
use goichi.Proxy.Headers.{HeaderLibrary, connection_tokens}
use goichi.Proxy.Forward.{
  Config, Upstream, Result, enter, leave, on_target, url_of, modify_target, rewrite_path, forward,
}

module _ {T : Type 0} (H : HeaderLibrary T) where
  unfoldable pub is_upgrade : T → Bool
  unfolding connection_tokens
  is_upgrade h =
      if is_empty (H.peek (codes "Upgrade") h)
      then false
      else any (λ tok. equal_fold tok (codes "Upgrade"))
          (connection_tokens (H.peek (codes "Connection") h))

-- What dialUpstream dials: plain TCP, TLS with the settings of the proxy, or TLS for a server's name.
pub data Dial : Type 0 where
  plain_dial : Bytes → Dial
  tls_dial : Bytes → Dial
  named_dial : Bytes → Bytes → Dial

-- The host of url.Parse and of net.SplitHostPort, `none` where they fail or give no host; whether the
-- proxy has TLS settings; the handshake for an address, with the host and the hook; the dialing, with its
-- error; Hijack; and on the hijacked connection, with whether it went well: the writing of the handshake,
-- the reading of the answer's header and its writing to the client, the bytes that are read already, their
-- Peek and Write; the copying both ways, and the closing of the upstream.
pub record Wire (S : Type 0) : Type 0 where
  pub parse_host : Bytes → Option Bytes
  pub split_host_port : Bytes → Option Bytes
  pub has_tls_config : Bool
  pub handshake : Bytes → S → S
  pub dial : Dial → S → S × Option Bytes
  pub hijack : S → S
  pub write_handshake : S → S × Bool
  pub read_header : S → S × Bool
  pub write_header : S → S × Bool
  pub buffered : S → ℕ
  pub peek_buffer : S → Bool
  pub write_buffer : S → S × Bool
  pub pipe : S → S
  pub close : S → S

-- The rest of a function that returns where a step fails.
abbrev pub and_then : {S : Type 0} → S × Bool → (S → S) → S
and_then (s, false) next = s
and_then (s, true) next = next s

-- An upgrade ends with an error, `none` being ErrNoTarget, or leaves a connection to a target.
pub data Upgraded : Type 0 where
  not_upgraded : Option Bytes → Upgraded
  hijacked : ℕ → Upgraded

module _ {S : Type 0} (W : Wire S) where
  unfoldable pub host_port : Bytes → Bytes
  unfolding after_scheme
  host_port addr = elim (after_scheme addr) [
    | none ↦ addr
    | some rest ↦ elim (W.parse_host addr) [ none ↦ rest | some host ↦ host ]
  ]

  unfoldable pub dial_upstream : Bytes → Bool → S → S × Option Bytes
  dial_upstream addr false s = W.dial (plain_dial addr) s
  dial_upstream addr true s =
      let host : Bytes = elim (W.split_host_port addr) [ none ↦ addr | some host ↦ host ] in
      W.dial (if W.has_tls_config then tls_dial addr else named_dial addr host) s

  -- The bytes behind the header, then both directions.
  abbrev pub flush : S → S
  flush s =
      if ltb 0 (W.buffered s) && W.peek_buffer s
      then and_then (W.write_buffer s) W.pipe
      else W.pipe s

  -- The function that Hijack is given, up to its deferred calls.
  unfoldable pub relay : S → S
  relay s =
      and_then (W.write_handshake s)
        (λ s1. and_then (W.read_header s1) (λ s2. and_then (W.write_header s2) flush))

  -- With its deferred calls, at whatever the balancer has become meanwhile.
  unfoldable pub on_hijacked : ℕ → Balancer → S → Balancer × S
  unfolding relay modify_target
  on_hijacked i b s = (on_target leave i b, W.close (relay s))

  abbrev pub after_dial : ℕ → Balancer → S × Option Bytes → (Balancer × S) × Upgraded
  after_dial i b (s, some err) = ((on_target leave i b, s), not_upgraded (some err))
  after_dial i b (s, none) = ((b, W.hijack s), hijacked i)

  abbrev pub upgrade_to :
      Config → Bytes → Bytes → (Balancer × Option ℕ) → S → (Balancer × S) × Upgraded
  upgrade_to cfg path query (b, none) s = ((b, s), not_upgraded none)
  upgrade_to cfg path query (b, some i) s =
      let uri = rewrite_path cfg path ++ (if is_empty query then [] else b'?' ∷ query) in
      let url = url_of b i in
      after_dial i (on_target enter i b) (
        dial_upstream (host_port url) (has_prefix url (codes "https://") false) (W.handshake uri s))

  -- One target is picked, and none other after it.
  unfoldable pub do_upgrade :
      (U : Upstream S) → Config → Bytes → Bytes → Bytes → Balancer → S → (Balancer × S) × Upgraded
  unfolding pick modify_target rewrite_path host_port dial_upstream has_prefix
  do_upgrade U cfg key path query b s =
      upgrade_to cfg path query (pick b key (U.draw s)) (U.drawn s)

-- What Do ends with: the targets that were tried and the result, or an upgrade.
pub data Done : Type 0 where
  forwarded : List ℕ → Result → Done
  upgraded : Upgraded → Done

module _ {S T : Type 0} (W : Wire S) (H : HeaderLibrary T) (U : Upstream S) where
  -- Do; `web_socket` is the setting of that name and `h` has the request's headers.
  unfoldable pub do_request :
      Config
      → (web_socket : Bool) (h : T) (key path query : Bytes) → Balancer
      → S
      → (Balancer × S) × Done
  unfolding is_upgrade do_upgrade forward
  do_request cfg web_socket h key path query b s =
      if web_socket && is_upgrade H h
      then (let (here, u) = do_upgrade W U cfg key path query b s in (here, upgraded u))
      else (let (here, (tried, r)) = forward U cfg key path query b s in (here, forwarded tried r))
