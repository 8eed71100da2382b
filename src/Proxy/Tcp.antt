-- ===== src/Proxy/Tcp.antt =====
-- proxy/tcp.go: the settings, the life of the proxy from Start to Stop, the accept loop's limit, and
-- the handling of one connection up to the relay of its bytes. The network and the hooks are the
-- interface `Network`.
use goichi.Prelude.{
  ℕ, zero, suc, ◌-◌, ◌%◌, ◌^◌, Bool, true, false, not, Option, none, some, leb, if◌then◌else◌,
  is_empty,
}
use goichi.Prelude.Text.{Bytes, codes}
use goichi.Prelude.Int.{ℤ, pos, negsuc, positive_or}
use goichi.Proxy.Balancer.{Target, Balancer, pick}
use goichi.Proxy.Forward.{on_target, enter, leave, url_of}

pub record TcpConfig : Type 0 where
  pub enabled : Bool
  pub name : Bytes
  pub address : Bytes
  pub dial_timeout : ℤ
  pub max_connections : ℤ

unfoldable pub set_defaults : TcpConfig → TcpConfig
set_defaults c = record c {
  name = if is_empty c.name then codes "tcp-proxy" else c.name;
  address = if is_empty c.address then codes "0.0.0.0" else c.address;
  dial_timeout = pos (positive_or 10000000000 c.dial_timeout);
}

-- `active` and `total` count connections; a listener is open, injected or absent.
pub record TcpProxy : Type 0 where
  pub config : TcpConfig
  pub bal : Balancer
  pub listener : Bool
  pub injected : Bool
  pub active : ℕ
  pub total : ℕ
  pub is_running : Bool

pub data StartError : Type 0 where
  no_target listen_failed : StartError

unfoldable pub set_listener : TcpProxy → TcpProxy
set_listener p = record p { listener = true; injected = true }

abbrev pub running : TcpProxy → TcpProxy
running p = record p { listener = true; is_running = true }

-- `bound` tells whether the port and the key pair could be had, where no listener is there.
unfoldable pub start : Bool → TcpProxy → TcpProxy × Option StartError
start bound p =
    if p.is_running
    then (p, none)
    else if not p.config.enabled
    then (p, none)
    else if is_empty p.bal.targets
    then (p, some no_target)
    else if p.listener
    then (running p, none)
    else if bound
    then (running p, none)
    else (p, some listen_failed)

unfoldable pub stop : TcpProxy → TcpProxy
stop p = if p.is_running then record p { is_running = false; listener = false } else p

-- max > 0 && active >= max
abbrev pub is_full : ℤ → ℕ → Bool
is_full (pos zero) active = false
is_full (pos (suc max)) active = leb (suc max) active
is_full (negsuc n) active = false

-- A turn of the accept loop, in its two steps: the test of the limit, after which a connection is closed at
-- once or goes on, and the counting of one that goes on. Two loops can be there at once, after a stop and a
-- start, so other steps can come between the two.
unfoldable pub has_room : TcpProxy → Bool
has_room p = not (is_full p.config.max_connections p.active)

unfoldable pub accept : TcpProxy → TcpProxy
accept p = record p { active = suc p.active; total = suc p.total % 2 ^ 64 }

-- The deferred active.Add(-1) of a handled connection.
unfoldable pub finish : TcpProxy → TcpProxy
finish p = record p { active = p.active - 1 }

-- What the handling of a connection calls: the hook on a new connection, which may refuse it, the
-- client's host, rand.IntN, and the dial of an address.
pub record Network : Type 0 where
  pub on_connect : Option Bytes
  pub host : Bytes
  pub draw : ℕ → ℕ
  pub dials : Bytes → Bool

pub data Handled : Type 0 where
  refused : Bytes → Handled
  without_target : Handled
  not_dialed : ℕ → Handled
  relaying : ℕ → Handled

abbrev pub take_down : Target → Target
take_down t = record t { healthy = false }

abbrev pub dial_target : Network → Balancer → Option ℕ → Balancer × Handled
dial_target net b none = (b, without_target)
dial_target net b (some i) =
    if net.dials (url_of b i)
    then (on_target enter i b, relaying i)
    else (on_target take_down i b, not_dialed i)

-- From the hook to the relay.
unfoldable pub handle : Network → Balancer → Balancer × Handled
unfolding pick
handle net b = elim net.on_connect [
  | some err ↦ (b, refused err)
  | none ↦ let (b', t) = pick b net.host net.draw in dial_target net b' t
]

-- The deferred active.Add(-1) of a target, after the relay.
abbrev pub after_relay : Handled → Balancer → Balancer
after_relay (relaying i) b = on_target leave i b
after_relay (refused err) b = b
after_relay without_target b = b
after_relay (not_dialed i) b = b
