-- ===== src/Middleware/RequestId.antt =====
-- middleware/requestid.go: an id for each request, from the client or drawn.
use goichi.Prelude.{
  ℕ, ◌+◌, ◌-◌, ◌/◌, ◌%◌, Option, none, some, [], ◌∷◌, if◌then◌else◌, is_empty, ltb, replicate,
}
use goichi.Prelude.Text.{Bytes, codes}
use goichi.Http.{Middleware, call, on_ctx}

-- A header of the request, and setting one of the request and of the response.
pub record Headers (C : Type 0) : Type 0 where
  pub header : Bytes → C → Bytes
  pub set_request_header : Bytes → Bytes → C → C
  pub set_response_header : Bytes → Bytes → C → C

abbrev pub hex_digit : ℕ → ℕ
hex_digit d = if ltb d 10 then b'0' + d else b'a' + (d - 10)

-- hex.EncodeToString
unfoldable pub encode_to_string : Bytes → Bytes
encode_to_string [] = []
encode_to_string (b ∷ bs) = hex_digit (b / 16) ∷ hex_digit (b % 16) ∷ encode_to_string bs

-- The sixteen bytes of crypto/rand, `none` where it fails.
unfoldable pub new_request_id : Option Bytes → Bytes
unfolding encode_to_string
new_request_id none = replicate 32 b'0'
new_request_id (some b) = encode_to_string b

module _ {C : Type 0} (H : Headers C) (drawn : Option Bytes) where
  abbrev pub request_id_of : C → Bytes
  request_id_of ctx =
      let id = H.header (codes "X-Request-ID") ctx in
      if is_empty id then new_request_id drawn else id

  abbrev pub with_id : Bytes → C → C
  with_id id ctx =
      H.set_response_header (codes "X-Request-ID") id
        (H.set_request_header (codes "X-Request-ID") id ctx)

  unfoldable pub request_id : Middleware C
  unfolding new_request_id
  request_id next = some (λ c. call next (on_ctx (λ ctx. with_id (request_id_of ctx) ctx) c))
