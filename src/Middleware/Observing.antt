-- ===== src/Middleware/Observing.antt =====
-- middleware/favicon.go, metrics.go, logger.go, timeout.go, grpc_logger.go and grpc_recover.go. What is
-- written to the log is a line of its parts; its layout is left to fmt.
use goichi.Prelude.{
  ℕ, suc, ◌-◌, ◌%◌, ◌^◌, Bool, Option, none, some, ◌∷◌, ◌++◌, leb, if◌then◌else◌, is_empty,
}
use Prim.Native.String.{String}
use goichi.Prelude.Text.{Bytes, codes, bytes_eq}
use goichi.Http.{FastHttp, Context, Outcome, returned, panicked, Handler, Middleware, call, on_ctx}
use goichi.Http.Responses.{Encoder, complain}

abbrev escape : String → Bytes
escape s = 27 ∷ codes s

abbrev pub favicon_bytes : Bytes
favicon_bytes =
    codes
      "<svg xmlns=\"http://www.w3.org/2000/svg\" viewBox=\"0 0 32 32\">\n  <rect width=\"32\" height=\"32\" rx=\"8\" fill=\"#E24B4A\"/>\n  <text x=\"16\" y=\"23\" font-family=\"system-ui,sans-serif\" font-size=\"20\" font-weight=\"700\"\n        text-anchor=\"middle\" fill=\"#ffffff\">G</text>\n</svg>"

module _ {C : Type 0} (F : FastHttp C) where
  unfoldable pub favicon : Middleware C
  favicon next = some (λ c.
      if bytes_eq (F.path c.request_ctx) (codes "/favicon.ico")
      then returned
          (on_ctx
            (λ ctx. F.set_body favicon_bytes (
              F.set_header (codes "Cache-Control") (codes "public, max-age=86400")
                (F.set_status 200 (F.set_content_type (codes "image/svg+xml") ctx))))
            c)
          none
      else call next c)

-- The counters of all requests, an uint64, and of those that are being handled.
pub record Stats : Type 0 where
  pub total_requests : ℕ
  pub active_requests : ℕ

abbrev pub entered : Stats → Stats
entered s = record {
  total_requests = suc s.total_requests % 2 ^ 64;
  active_requests = suc s.active_requests;
}

abbrev pub left : Stats → Stats
left s = record s { active_requests = s.active_requests - 1 }

abbrev pub get_stats : Stats → ℕ × ℕ
get_stats s = (s.total_requests, s.active_requests)

abbrev pub status_color : ℕ → Bytes
status_color code =
    if leb 500 code
    then escape "[31m"
    else if leb 400 code
    then escape "[33m"
    else if leb 300 code
    then escape "[36m"
    else escape "[32m"

-- The line of a request.
pub record LogLine : Type 0 where
  pub method : Bytes
  pub path : Bytes
  pub color : Bytes
  pub status : ℕ

module _ {C : Type 0} where
  -- The deferred call counts a request out after a panic too. A request in between sees what `during`
  -- makes of the counters.
  unfoldable pub metrics :
      (during : Stats → Stats) → Handler C → Stats → Context C → Stats × Outcome C
  metrics during next s c = (left (during (entered s)), call next c)

  -- The error is passed on; nothing is logged after a panic.
  abbrev pub logged : FastHttp C → (C → ℕ) → Outcome C → Outcome C × Option LogLine
  logged F status_code (panicked c) = (panicked c, none)
  logged F status_code (returned c err) =
      let code = status_code c.request_ctx in
      (
        returned c err,
        some (record {
          method = F.method c.request_ctx;
          path = F.path c.request_ctx;
          color = status_color code;
          status = code;
        }),
      )

  unfoldable pub logger : FastHttp C → (C → ℕ) → Handler C → Context C → Outcome C × Option LogLine
  logger F status_code next c = logged F status_code (call next c)

-- A request context with a copy of the request and an empty response, and the copy of a response.
pub record Copying (C : Type 0) : Type 0 where
  pub isolated : C → C
  pub copy_response : (from to : C) → C

module _ {C V : Type 0} (F : FastHttp C) (E : Encoder C V) (K : Copying C) where
  -- The map of locals is shared with the copy of the context, unless it was nil.
  abbrev pub published : Context C → Context C → Context C
  published c sub = record c {
    request_ctx = K.copy_response sub.request_ctx c.request_ctx;
    locals = if is_empty c.locals then c.locals else sub.locals;
  }

  -- A panic of the goroutine ends the process.
  abbrev pub finished : Context C → Outcome C → Option (Outcome C)
  finished c (returned sub err) = some (returned (published c sub) err)
  finished c (panicked sub) = none

  -- Whether the handler ends before the timeout.
  unfoldable pub timeout : Bool → Handler C → Context C → Option (Outcome C)
  timeout in_time next c =
      if in_time
      then finished c (call next (on_ctx K.isolated c))
      else some (complain F E 503 (codes "request timeout") c)

-- What a handler of a gRPC call gives: a reply or an error, or a panic with its message.
pub data Reply (A : Type 0) : Type 0 where
  replied : A → Reply A
  panicked_with : Bytes → Reply A

module _ {A : Type 0} where
  -- `internal` is the error of code Internal with a message.
  abbrev pub recovered : (Bytes → A) → Reply A → Reply A
  recovered internal (replied a) = replied a
  recovered internal (panicked_with r) = replied (internal (codes "internal server error: " ++ r))

  -- GRPCRecover and GRPCStreamRecover.
  unfoldable pub grpc_recover : {X : Type 0} → (Bytes → A) → (X → Reply A) → X → Reply A
  grpc_recover internal handler ctx = recovered internal (handler ctx)

  -- GRPCLogger and GRPCStreamLogger, with the color of the line.
  abbrev pub grpc_logged : (A → Bool) → Reply A → Reply A × Option Bytes
  grpc_logged is_error (panicked_with r) = (panicked_with r, none)
  grpc_logged is_error (replied a) =
      (replied a, some (if is_error a then escape "[31m" else escape "[32m"))

  unfoldable pub grpc_logger :
      {X : Type 0} → (A → Bool) → (X → Reply A) → X → Reply A × Option Bytes
  grpc_logger is_error handler ctx = grpc_logged is_error (handler ctx)
