-- ===== src/Middleware/Jwt/Tests.antt =====
-- A JWT library that writes the claims out, at which the theorems on tokens hold.

use mathlib.Core.Option
use goichi.Prelude.{
  inl, inr, Bool-cases, ℕ, zero, suc, ◌≡◌, refl, sym, ap, ◌∙◌, false, Option, none, some, List, [],
  ◌∷◌, ◌++◌, if◌then◌else◌, is_empty, arith, if_of_true,
}
use goichi.Prelude.Text.{Bytes, codes, bytes_eq, bytes_eq_refl, on_first}
use goichi.Prelude.Int.{pos}
use goichi.Http.{Value, text, opaque, FastHttp, Context, returned, Handler, call, lookup, on_ctx}
use goichi.Middleware.Jwt.{
  Claims, JwtLibrary, Fields, JwtConfig, extract_token, token_lookup, stamped, encode_jwt_with_ttl,
  jwt,
}
use goichi.Tree.{has_prefix}
use goichi.Middleware.Jwt.Guard.{jwt-guarded}
use goichi.Middleware.Jwt.Tokens.{IsJwtLibrary, IsReadBack, validate_jwt-encode}

-- Claims as they come back from JSON.
abbrev reread_all : (Value → Value) → Claims → Claims
reread_all reread [] = []
reread_all reread ((k, v) ∷ m) = (k, reread v) ∷ reread_all reread m

lookup-reread_all :
    (reread : Value → Value) (k : Bytes) (m : Claims)
    → lookup k (reread_all reread m) ≡ Option.map reread (lookup k m)
unfolding lookup
lookup-reread_all reread k [] = refl
lookup-reread_all reread k ((j, v) ∷ m) = elim (Bool-cases (bytes_eq j k)) [
  | inl same ↦ rw same refl
  | inr other ↦ rw other (lookup-reread_all reread k m)
]

-- Strings one after the other: every byte raised by one, and a zero behind each string.
abbrev raised : Bytes → Bytes → Bytes
raised [] rest = 0 ∷ rest
raised (b ∷ s) rest = suc b ∷ raised s rest

abbrev written : List Bytes → Bytes
written [] = []
written (s ∷ ss) = raised s (written ss)

abbrev add_byte : ℕ → List Bytes → List Bytes
add_byte zero ss = [] ∷ ss
add_byte (suc b) ss = on_first b ss

abbrev strings : Bytes → List Bytes
strings [] = []
strings (b ∷ s) = add_byte b (strings s)

strings-raised : (s rest : Bytes) → strings (raised s rest) ≡ s ∷ strings rest
strings-raised [] rest = refl
strings-raised (b ∷ s) rest = ap (on_first b) (strings-raised s rest)

strings-written : (ss : List Bytes) → strings (written ss) ≡ ss
strings-written [] = refl
strings-written (s ∷ ss) =
    strings-raised s (written ss) ∙ ap (λ rest. s ∷ rest) (strings-written ss)

abbrev bytes_of : Value → Bytes
bytes_of (text s) = s
bytes_of (opaque n) = n ∷ []

-- A value that is no string comes back as one.
abbrev as_text : Value → Value
as_text v = text (bytes_of v)

abbrev flat : Claims → List Bytes
flat [] = []
flat ((k, v) ∷ m) = k ∷ bytes_of v ∷ flat m

abbrev paired : List Bytes → Claims
paired [] = []
paired (k ∷ []) = []
paired (k ∷ v ∷ rest) = (k, text v) ∷ paired rest

paired-flat : (m : Claims) → paired (flat m) ≡ reread_all as_text m
paired-flat [] = refl
paired-flat ((k, v) ∷ m) = ap (λ rest. (k, as_text v) ∷ rest) (paired-flat m)

abbrev read_token : List Bytes → Bytes → Option Claims
read_token [] secret = none
read_token (key ∷ rest) secret = if bytes_eq key secret then some (paired rest) else none

-- The secret stands in front of the claims; a token never expires.
abbrev library : JwtLibrary
library = record {
  parse = λ s secret now. read_token (strings s) secret;
  sign = λ m secret. some (written (secret ∷ flat m));
  date = opaque;
}

library-accepts :
    (m : Claims) (secret : Bytes)
    → library.parse (written (secret ∷ flat m)) secret 0 ≡ some (reread_all as_text m)
library-accepts m secret =
    ap (λ ss. read_token ss secret) (strings-written (secret ∷ flat m))
    ∙ if_of_true _ _ (bytes_eq_refl secret)
    ∙ ap some (paired-flat m)

raised_full : (s rest : Bytes) → is_empty (raised s rest) ≡ false
raised_full [] rest = refl
raised_full (b ∷ s) rest = refl

library-IsJwtLibrary : IsJwtLibrary library (reread_all as_text) as_text
library-IsJwtLibrary = record {
  signs = λ m secret s signed.
      let same : written (secret ∷ flat m) ≡ s = cc signed in
      rw (← same) (raised_full secret (written (flat m)));
  accepts = λ m secret s now exp signed in_exp no_nbf soon.
      let same : written (secret ∷ flat m) ≡ s = cc signed in
      ap (λ t. library.parse t secret 0) (sym same) ∙ library-accepts m secret;
  keeps = λ m k ascii. lookup-reread_all as_text k m;
}

-- A request is its Authorization header, a response its status.
abbrev Req : Type 0
Req = Bytes × ℕ

abbrev http : FastHttp Req
http = record {
  method = λ c. [];
  path = λ c. [];
  set_status = λ n c. (c.0, n);
  set_content_type = λ t c. c;
  set_header = λ k v c. c;
  set_body = λ b c. c;
  reset_body = λ c. c;
  json_error = λ msg. some msg;
}

abbrev fields : Fields Req
fields = record {
  header = λ k c. c.0;
  query = λ k c. [];
  cookie = λ k c. [];
  set_header = λ k v c. c;
}

abbrev config : JwtConfig Req
config = record { secret = codes "s"; token_lookup = []; error_handler = none }

abbrev claims : Claims
claims = (codes "sub", text (codes "7")) ∷ []

abbrev handler : Handler Req
handler = some (λ c. returned (on_ctx (http.set_status 204) c) none)

abbrev request : Context Req
request = record {
  request_ctx = (codes "Bearer " ++ written (codes "s" ∷ flat claims), 0);
  params = [];
  jwt_claims = none;
  locals = [];
}

jwt-guarded_example :
    call (jwt http fields library config 5 handler) request
    ≡ returned
        (record request { request_ctx = (request.request_ctx.0, 204); jwt_claims = some claims })
        none
unfolding extract_token token_lookup has_prefix
jwt-guarded_example = jwt-guarded http fields library config handler 5 request

abbrev stamped_token : Bytes
stamped_token = written (codes "s" ∷ flat (stamped library (pos 60000000000) 5 claims))

validate_jwt-encode_example :
    IsReadBack library as_text claims stamped_token (codes "s") (pos 60000000000) 5 7
unfolding lookup encode_jwt_with_ttl
validate_jwt-encode_example =
    validate_jwt-encode library (reread_all as_text) as_text claims stamped_token (codes "s")
      (pos 60000000000) 5 7 library-IsJwtLibrary refl refl refl (omega arith) refl
