-- ===== src/Protocol/Mcp/Sessions.antt =====
-- What a session may do before it is authenticated: its life log a step relation.
use goichi.Prelude.{
  ℕ, ◌≡◌, refl, sym, ap, ◌∙◌, Bool, true, false, not, ◌&&◌, ◌||◌, Option, some, List, [], ◌∷◌,
  arith, inl, inr, Bool-cases, is_empty, if_of_true, if_of_false, any,
}
use goichi.Prelude.Text.{Bytes, codes, bytes_eq}
use goichi.Middleware.Jwt.{JwtLibrary, Verdict, valid, rejected, is_valid, validate_jwt}
use goichi.Protocol.Mcp.{
  Json, JsonRpcRequest, JsonRpcResponse, McpServer, auth_needed, unauthorized, after_verdict,
  initialize, answer, respond, handle_request,
}

-- A request of a session: its time, the server's settings then, and what it asks.
pub record Asked (S : Type 0) : Type 0 where
  pub now : ℕ
  pub server : McpServer S
  pub request : JsonRpcRequest

abbrev field_0 : {A B : Type 0} → A × B → A
field_0 p = p.0

after_verdict-flag :
    (S : Type 0) (flag : Bool) (v : Verdict)
    → (after_verdict {S = S} flag v).0 ≡ true
    → (flag || is_valid v) ≡ true
after_verdict-flag S flag (valid claims) h = ground arith
after_verdict-flag S flag (rejected msg) h = ground arith

module _ {S : Type 0} (JS : Json) (J : JwtLibrary) where
  -- The request is an initialize with a token that is valid under the server's secret.
  abbrev pub is_login : Asked S → Bool
  is_login a =
      bytes_eq a.request.method (codes "initialize")
      && is_valid (validate_jwt J a.now (JS.token_of a.request.params) a.server.auth_secret)

  abbrev pub handled : Asked S → Bool → S → Bool × (S × Option (JsonRpcResponse S))
  handled a flag s = handle_request JS J a.now a.server a.request flag s

  -- The requests of a session, the last one first, and the flag after them. The server's settings and
  -- the program's state may have changed between two of them.
  pub data Session : List (Asked S) → Bool → Type 0 where
    opened : Session [] false
    asked :
        {log : List (Asked S)} {flag flag' : Bool}
        → Session log flag
        → (a : Asked S) (s : S) → flag' ≡ (handled a flag s).0
        → Session (a ∷ log) flag'

  initialize-flag :
      (now : ℕ) (ms : McpServer S) (params : Bytes) (flag : Bool)
      → (initialize {S = S} JS J now ms params flag).0 ≡ true
      → (flag || is_valid (validate_jwt J now (JS.token_of params) ms.auth_secret)) ≡ true
  unfolding initialize
  initialize-flag now ms params flag h = elim (Bool-cases (not (auth_needed ms))) [
    | inl unneeded ↦ ground (arith, sym (ap field_0 (if_of_true _ _ unneeded)) ∙ h)
    | inr needed ↦ elim (Bool-cases (is_empty ms.auth_secret)) [
      | inl unset ↦
          ground (arith, sym (ap field_0 (if_of_false _ _ needed ∙ if_of_true _ _ unset)) ∙ h)
      | inr set ↦
          after_verdict-flag S flag (validate_jwt J now (JS.token_of params) ms.auth_secret)
            (sym (ap field_0 (if_of_false _ _ needed ∙ if_of_false _ _ set)) ∙ h)
    ]
  ]

  handled-flag :
      (a : Asked S) (flag : Bool) (s : S)
      → (handled a flag s).0 ≡ true
      → (flag || is_login a) ≡ true
  unfolding handle_request answer
  handled-flag a flag s h = elim (Bool-cases (bytes_eq a.request.method (codes "initialize"))) [
    | inl login ↦ ground (
      arith,
      login,
      initialize-flag a.now a.server a.request.params flag
          (sym (ap field_0 (if_of_true _ _ login)) ∙ h),
    )
    | inr call ↦ elim (Bool-cases (auth_needed a.server && not flag)) [
      | inl refused ↦
          ground (arith, sym (ap field_0 (if_of_false _ _ call ∙ if_of_true _ _ refused)) ∙ h)
      | inr allowed ↦
          ground (arith, sym (ap field_0 (if_of_false _ _ call ∙ if_of_false _ _ allowed)) ∙ h)
    ]
  ]

  Session-flag :
      {log : List (Asked S)} {flag : Bool}
      → Session log flag
      → flag ≡ true
      → any is_login log ≡ true
  Session-flag opened h = cc h
  Session-flag (asked r a s e) h = elim (Bool-cases (is_login a)) [
    | inl login ↦ ground (arith, login)
    | inr call ↦
        ground (arith, call, Session-flag r (ground (arith, call, handled-flag a _ s (sym e ∙ h))))
  ]

  -- In a session with no valid initialize so far, a server that needs authentication answers every other
  -- method with an error, runs no tool and leaves the session as it is.
  pub Session-refuses :
      {log : List (Asked S)} {flag : Bool}
      → Session log flag
      → any is_login log ≡ false
      → (a : Asked S) (s : S) → auth_needed a.server ≡ true
      → bytes_eq a.request.method (codes "initialize") ≡ false
      → handled a flag s ≡ (false, (s, some (record { id = a.request.id; result = unauthorized })))
  unfolding handle_request answer
  Session-refuses {flag = true} r none_yet a s needed call =
      cc (sym (Session-flag r refl) ∙ none_yet)
  Session-refuses {flag = false} r none_yet a s needed call = ap (respond a.request.id) (
      if_of_false _ _ call
      ∙ if_of_true {b = auth_needed a.server && not false} _ _ (ground (arith, needed)))
