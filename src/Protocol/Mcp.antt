-- ===== src/Protocol/Mcp.antt =====
-- protocol/mcp/server.go: the tables of tools, resources and prompts, the reader that limits a message,
-- the life of the server, and the handling of a request in its session. The JSON library and the tools'
-- handlers are an interface; a JSON value is `Value`.
pub mod Sessions
pub mod Registration
use mathlib.Core.Option
use goichi.Prelude.{
  ℕ, zero, suc, ◌+◌, ◌-◌, Bool, true, false, not, ◌&&◌, ◌||◌, Option, none, some, List, [], ◌∷◌,
  ◌++◌, ltb, leb, if◌then◌else◌, is_empty, length,
}
use goichi.Prelude.Text.{Bytes, codes, bytes_eq}
use goichi.Prelude.Int.{ℤ, negsuc, at_least}
use goichi.Http
use goichi.Http.{Value, opaque, lookup, erase}
use goichi.Middleware.Jwt.{JwtLibrary, Verdict, valid, rejected, validate_jwt}
use goichi.Protocol.Settings.{McpConfig, mcp_defaults}

pub record JsonRpcRequest : Type 0 where
  pub id : Value
  pub method : Bytes
  pub params : Bytes

-- A tool's handler, with the state S of the program that it acts on; `none` is a panic.
pub record Tool (S : Type 0) : Type 0 where
  pub name : Bytes
  pub description : Bytes
  pub input_schema : Value
  pub handler : Value → S → S × Option (Value × Option Bytes)

pub record Resource : Type 0 where
  pub uri : Bytes
  pub name : Bytes
  pub description : Bytes
  pub mime_type : Bytes
  pub content : Value

pub record PromptArgument : Type 0 where
  pub name : Bytes
  pub description : Bytes
  pub required : Bool

pub record Prompt (S : Type 0) : Type 0 where
  pub name : Bytes
  pub description : Bytes
  pub arguments : List PromptArgument
  pub handler : Value → S → S × Option (Bytes × Option Bytes)

-- The result of a response, or its error. JSON leaves the handlers out of a list.
pub data RpcResult (S : Type 0) : Type 0 where
  server_info : RpcResult S
  tool_list : List (Tool S) → RpcResult S
  resource_list : List Resource → RpcResult S
  prompt_list : List (Prompt S) → RpcResult S
  tool_result : Value → RpcResult S
  rpc_error : ℤ → Bytes → RpcResult S

pub record JsonRpcResponse (S : Type 0) : Type 0 where
  pub id : Value
  pub result : RpcResult S

-- params.token where the parameters have one, else empty; params.name and params.arguments, `none`
-- where the parameters are not of that form.
pub record Json : Type 0 where
  pub token_of : Bytes → Bytes
  pub call_of : Bytes → Option (Bytes × Value)

pub record McpServer (S : Type 0) : Type 0 where
  pub config : McpConfig
  pub listening : Bool
  pub is_running : Bool
  pub tools : List (Bytes × Tool S)
  pub resources : List (Bytes × Resource)
  pub prompts : List (Bytes × Prompt S)
  pub sessions : List (Bytes × Bool)
  pub done_closed : Bool
  pub auth_secret : Bytes
  pub auth_lookup : Bytes

abbrev pub unauthorized : {S : Type 0} → RpcResult S
unauthorized = rpc_error (negsuc 32000) (codes "unauthorized")

abbrev entries : {A : Type 0} → List (Bytes × A) → List A
entries [] = []
entries ((k, a) ∷ m) = a ∷ entries m

abbrev pub after_verdict : {S : Type 0} → Bool → Verdict → Bool × RpcResult S
after_verdict authenticated (rejected msg) = (authenticated, unauthorized)
after_verdict authenticated (valid claims) = (true, server_info)

abbrev pub with_state : {S : Type 0} → S → Bool × RpcResult S → Bool × (S × Option (RpcResult S))
with_state s (flag, answer) = (flag, (s, some answer))

abbrev pub respond :
    {S : Type 0}
    → Value
    → Bool × (S × Option (RpcResult S))
    → Bool × (S × Option (JsonRpcResponse S))
respond id p = (p.0, (p.1.0, Option.map (λ r. record { id = id; result = r }) p.1.1))

module _ {S : Type 0} where
  unfoldable pub new_mcp_server : McpConfig → McpServer S
  unfolding mcp_defaults
  new_mcp_server config = record {
    config = mcp_defaults config;
    listening = false;
    is_running = false;
    tools = [];
    resources = [];
    prompts = [];
    sessions = [];
    done_closed = false;
    auth_secret = [];
    auth_lookup = [];
  }

  unfoldable pub set_auth_secret : Bytes → McpServer S → McpServer S
  set_auth_secret secret ms = record ms { auth_secret = secret }

  unfoldable pub set_auth_lookup : Bytes → McpServer S → McpServer S
  set_auth_lookup spec ms = record ms { auth_lookup = spec }

  -- The server, and whether the tool was registered.
  unfoldable pub register_tool : Tool S → McpServer S → McpServer S × Bool
  register_tool tool ms =
      if at_least (length ms.tools) ms.config.max_tool_count
      then (ms, false)
      else (record ms { tools = Http.insert tool.name tool ms.tools }, true)

  unfoldable pub register_resource : Resource → McpServer S → McpServer S × Bool
  register_resource res ms =
      if at_least (length ms.resources) ms.config.max_resource_count
      then (ms, false)
      else (record ms { resources = Http.insert res.uri res ms.resources }, true)

  unfoldable pub register_prompt : Prompt S → McpServer S → McpServer S
  unfolding Http.insert
  register_prompt p ms = record ms { prompts = Http.insert p.name p ms.prompts }

  -- `bound` tells whether the port and the key pair could be had.
  unfoldable pub start : Bool → McpServer S → McpServer S × Bool
  start bound ms =
      if ms.is_running
      then (ms, true)
      else if not ms.config.base.enabled
      then (ms, true)
      else if bound
      then (record ms { listening = true; is_running = true }, true)
      else (ms, false)

  -- `none` is the panic of a second close of the channel.
  unfoldable pub stop : McpServer S → Option (McpServer S)
  stop ms =
      if not ms.is_running
      then some ms
      else if ms.done_closed
      then none
      else some (record ms { listening = false; is_running = false; done_closed = true })

  abbrev pub auth_needed : McpServer S → Bool
  auth_needed ms = not (is_empty ms.auth_secret) || ms.config.require_auth

  -- The method initialize: the session's flag and the answer.
  unfoldable pub initialize :
      Json → JwtLibrary → ℕ → McpServer S → Bytes → Bool → Bool × RpcResult S
  initialize JS J now ms params authenticated =
      if not (auth_needed ms)
      then (authenticated, server_info)
      else if is_empty ms.auth_secret
      then (authenticated, rpc_error (negsuc 32000) (codes "auth not configured"))
      else after_verdict authenticated (validate_jwt J now (JS.token_of params) ms.auth_secret)

  abbrev pub call_result : S × Option (Value × Option Bytes) → S × Option (RpcResult S)
  call_result (s, none) = (s, none)
  call_result (s, some (v, none)) = (s, some (tool_result v))
  call_result (s, some (v, some err)) = (s, some (rpc_error (negsuc 31999) err))

  -- The method tools/call; `none` is a panic of the tool.
  unfoldable pub call_tool : Json → McpServer S → Bytes → S → S × Option (RpcResult S)
  call_tool JS ms params s = elim (JS.call_of params) [
    | none ↦ (s, some (rpc_error (negsuc 32601) (codes "Invalid params")))
    | some (name, args) ↦ elim (lookup name ms.tools) [
      | none ↦ (s, some (rpc_error (negsuc 32600) (codes "Tool not found")))
      | some tool ↦ call_result (tool.handler args s)
    ]
  ]

  -- The methods that need a session past authentication.
  unfoldable pub dispatch : Json → McpServer S → JsonRpcRequest → S → S × Option (RpcResult S)
  dispatch JS ms req s =
      if bytes_eq req.method (codes "tools/list")
      then (s, some (tool_list (entries ms.tools)))
      else if bytes_eq req.method (codes "resources/list")
      then (s, some (resource_list (entries ms.resources)))
      else if bytes_eq req.method (codes "prompts/list")
      then (s, some (prompt_list (entries ms.prompts)))
      else if bytes_eq req.method (codes "tools/call")
      then call_tool JS ms req.params s
      else (s, some (rpc_error (negsuc 32600) (codes "Method not found")))

  unfoldable pub answer :
      Json
      → JwtLibrary
      → ℕ
      → McpServer S
      → JsonRpcRequest
      → Bool
      → S
      → Bool × (S × Option (RpcResult S))
  unfolding initialize dispatch
  answer JS J now ms req authenticated s =
      if bytes_eq req.method (codes "initialize")
      then with_state s (initialize JS J now ms req.params authenticated)
      else if auth_needed ms && not authenticated
      then (authenticated, (s, some unauthorized))
      else (authenticated, dispatch JS ms req s)

  -- A request in a session: the session's flag, the program's state and the response, which has the
  -- request's id.
  unfoldable pub handle_request :
      Json
      → JwtLibrary
      → ℕ
      → McpServer S
      → JsonRpcRequest
      → Bool
      → S
      → Bool × (S × Option (JsonRpcResponse S))
  unfolding answer call_tool lookup validate_jwt
  handle_request JS J now ms req authenticated s =
      respond req.id (answer JS J now ms req authenticated s)

  -- A session's entry in the table while its connection is open.
  unfoldable pub open_session : Bytes → McpServer S → McpServer S
  open_session id ms = record ms { sessions = Http.insert id false ms.sessions }

  unfoldable pub close_session : Bytes → McpServer S → McpServer S
  close_session id ms = record ms { sessions = erase id ms.sessions }

  -- The result and the error; the first is nil where there is no tool, for which `opaque 0` stands. `none`
  -- is a panic of the tool.
  unfoldable pub execute_tool : McpServer S → Bytes → Value → S → S × Option (Value × Option Bytes)
  unfolding lookup
  execute_tool ms name args s = elim (lookup name ms.tools) [
    | none ↦ (s, some (opaque 0, some (codes "tool not found")))
    | some tool ↦ tool.handler args s
  ]

-- limitedReader: the bytes read of this message, and the most there may be.
pub record LimitedReader : Type 0 where
  pub n : ℕ
  pub max : ℕ

-- Read into a buffer of `size` bytes; `source` is the connection's Read, from a state to the next with the
-- number of bytes that it gives. The result is the number of bytes read, `none` for errRequestTooLarge.
unfoldable pub read :
    {S : Type 0} → (S → ℕ → S × ℕ) → ℕ → S → LimitedReader → (S × LimitedReader) × Option ℕ
read source size s l =
    if leb l.max l.n
    then ((s, l), none)
    else (let room = l.max - l.n in
        let (s', got) = source s (if ltb room size then room else size) in
        ((s', record l { n = l.n + got }), some got))

abbrev pub reset : LimitedReader → LimitedReader
reset l = record l { n = 0 }
