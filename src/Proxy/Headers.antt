-- ===== src/Proxy/Headers.antt =====
-- proxy/proxy.go: which headers a forwarded request and its response have. fasthttp's headers are an
-- interface.
pub mod Stripping
use goichi.Prelude.{Bool, true, false, List, [], ◌∷◌, ◌++◌, if◌then◌else◌, is_empty}
use goichi.Prelude.Text.{Bytes, codes, split, trim_space}

-- Peek, Set and Del of a header on the state T of a message.
pub record HeaderLibrary (T : Type 0) : Type 0 where
  pub peek : Bytes → T → Bytes
  pub set : Bytes → Bytes → T → T
  pub del : Bytes → T → T

-- What a request tells of its client: the address, the host, whether it came by TLS, and two headers.
pub record Client : Type 0 where
  pub remote_ip : Bytes
  pub host : Bytes
  pub is_tls : Bool
  pub forwarded_for : Bytes
  pub forwarded_proto : Bytes

abbrev pub hop_by_hop_headers : List Bytes
hop_by_hop_headers =
    codes "Keep-Alive"
    ∷ codes "Proxy-Authenticate"
    ∷ codes "Proxy-Authorization"
    ∷ codes "TE"
    ∷ codes "Trailer"
    ∷ codes "Transfer-Encoding"
    ∷ codes "Upgrade"
    ∷ []

abbrev pub add_name : Bytes → List Bytes → List Bytes
add_name name names = if is_empty name then names else name ∷ names

abbrev pub trimmed : List Bytes → List Bytes
trimmed [] = []
trimmed (part ∷ parts) = add_name (trim_space part) (trimmed parts)

unfoldable pub connection_tokens : Bytes → List Bytes
unfolding trim_space split
connection_tokens value = if is_empty value then [] else trimmed (split b',' value)

module _ {T : Type 0} (H : HeaderLibrary T) where
  unfoldable pub del_all : List Bytes → T → T
  del_all [] h = h
  del_all (name ∷ names) h = del_all names (H.del name h)

  -- For a request and for a response; the names of the Connection header go first.
  unfoldable pub strip_hop_by_hop : T → T
  unfolding del_all connection_tokens
  strip_hop_by_hop h = del_all hop_by_hop_headers (
      H.del (codes "Proxy-Connection") (
        H.del (codes "Connection") (del_all (connection_tokens (H.peek (codes "Connection") h)) h)))

  abbrev pub forwarded_for : Client → Bytes
  forwarded_for c =
      if is_empty c.forwarded_for
      then c.remote_ip
      else c.forwarded_for ++ (codes ", " ++ c.remote_ip)

  abbrev pub scheme_of : Client → Bytes
  scheme_of c =
      if is_empty c.forwarded_proto
      then (if c.is_tls then codes "https" else codes "http")
      else c.forwarded_proto

  unfoldable pub set_forward_headers : Client → T → T
  set_forward_headers c h = H.set (codes "X-Forwarded-Proto") (scheme_of c) (
      H.set (codes "X-Real-IP") c.remote_ip (
        H.set (codes "X-Forwarded-Host") c.host
          (H.set (codes "X-Forwarded-For") (forwarded_for c) h)))

  -- The headers that go upstream.
  unfoldable pub forwarded_headers : Client → T → T
  unfolding strip_hop_by_hop set_forward_headers
  forwarded_headers c h = set_forward_headers c (strip_hop_by_hop h)
