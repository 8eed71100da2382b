-- ===== src/Middleware.antt =====
-- The package middleware. What it calls on a request context is an interface.
pub mod RateLimit
pub mod Cors
pub mod Cache
pub mod Jwt
pub mod Recover
pub mod Body
pub mod RequestId
pub mod Observing
mod Tests
use goichi.Prelude.{ℕ}
use goichi.Prelude.Text.{Bytes}

-- The method and a header of the request; the status, body and headers of the response.
pub record Exchange (C : Type 0) : Type 0 where
  pub method : C → Bytes
  pub header : Bytes → C → Bytes
  pub status : C → ℕ
  pub body : C → Bytes
  pub content_type : C → Bytes
  pub set_status : ℕ → C → C
  pub set_body : Bytes → C → C
  pub set_header : Bytes → Bytes → C → C
  pub add_header : Bytes → Bytes → C → C
