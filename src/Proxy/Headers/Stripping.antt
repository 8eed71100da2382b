-- ===== src/Proxy/Headers/Stripping.antt =====
-- What is left of the headers of a message.
use goichi.Prelude.{
  ◌≡◌, Bool, true, false, ◌||◌, List, [], ◌∷◌, ◌++◌, if◌then◌else◌, any, not, ◌&&◌, is_empty,
}
use goichi.Prelude.Text.{Bytes, codes, bytes_eq, equal_fold, split, trim_space}
use goichi.Proxy.Headers.{HeaderLibrary, hop_by_hop_headers, connection_tokens}

-- The headers that the proxy sets itself.
abbrev pub set_names : List Bytes
set_names =
    codes "X-Forwarded-Proto"
    ∷ codes "X-Real-IP"
    ∷ codes "X-Forwarded-Host"
    ∷ codes "X-Forwarded-For"
    ∷ []

-- The library: names of headers have no case, deleting one touches no other, and setting one of those that
-- the proxy sets touches no other.
pub record IsHeaderLibrary {T : Type 0} (H : HeaderLibrary T) : Type 0 where
  pub deletes :
      (n k : Bytes) (h : T) → H.peek k (H.del n h) ≡ (if equal_fold n k then [] else H.peek k h)
  pub sets :
      (n k v : Bytes) (h : T)
      → any (bytes_eq n) set_names ≡ true
      → equal_fold n k ≡ false
      → H.peek k (H.set n v h) ≡ H.peek k h

-- The names that are deleted: the fixed ones, and those that the Connection header lists.
abbrev scoped_names : {T : Type 0} → HeaderLibrary T → T → List Bytes
scoped_names H h =
    hop_by_hop_headers
    ++ codes "Proxy-Connection"
      ∷ codes "Connection"
      ∷ connection_tokens (H.peek (codes "Connection") h)

abbrev pub is_named : Bytes → List Bytes → Bool
is_named k names = any (λ n. equal_fold n k) names

-- The headers that belong to the connection, of RFC 9110 and by custom, and the names in a list with
-- commas, without the white space around them.
abbrev pub fixed_names : List Bytes
fixed_names =
    codes "Connection"
    ∷ codes "Proxy-Connection"
    ∷ codes "Keep-Alive"
    ∷ codes "Proxy-Authenticate"
    ∷ codes "Proxy-Authorization"
    ∷ codes "TE"
    ∷ codes "Trailer"
    ∷ codes "Transfer-Encoding"
    ∷ codes "Upgrade"
    ∷ []

abbrev pub is_listed : Bytes → Bytes → Bool
is_listed k value =
    any (λ part. not (is_empty (trim_space part)) && equal_fold (trim_space part) k)
      (split b',' value)

abbrev pub is_scoped : {T : Type 0} → HeaderLibrary T → Bytes → T → Bool
is_scoped H k h = is_named k fixed_names || is_listed k (H.peek (codes "Connection") h)
