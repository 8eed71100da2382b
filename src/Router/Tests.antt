-- ===== src/Router/Tests.antt =====
-- A small router, at which the theorems on routers hold.
use goichi.Prelude.{ℕ, ◌≡◌, refl, Bool, true, false, none, some, [], ◌==◌, any, is_some}
use goichi.Prelude.Text.{Bytes, codes}
use goichi.Http.{FastHttp, Context, Outcome, returned, panicked, Middleware, on_ctx}
use goichi.Router.{RouteEntry, Router, new_router, add_route, on_info, set_auth_middleware}
use goichi.Router.Route.{no_auth}
use goichi.Router.Compile.{apply_chain, is_no_auth, chain_of, compile, build}
use goichi.Router.Dispatch.{find_method, decide}
use goichi.Router.Coverage.{Declared, Callable, entry_serves, find_method-build}
use goichi.Router.Methods.{kind, answer_to, decide-kind}
use goichi.Router.Auth.{compile-rejects}

-- A request context: the method, the path and the status.
abbrev Req : Type 0
Req = Bytes × (Bytes × ℕ)

abbrev http : FastHttp Req
http = record {
  method = λ c. c.0;
  path = λ c. c.1.0;
  set_status = λ n c. (c.0, (c.1.0, n));
  set_content_type = λ t c. c;
  set_header = λ k v c. c;
  set_body = λ b c. c;
  reset_body = λ c. c;
  json_error = λ msg. some msg;
}

abbrev answer : ℕ → Context Req → Outcome Req
answer n c = returned (on_ctx (http.set_status n) c) none

abbrev users : Router Req
users =
    (add_route (codes "POST") (codes "users") (some (answer 201)) []
      (add_route (codes "GET") (codes "/users/:id") (some (answer 200)) []
        (new_router false false)).0).0

users-Declared : Declared users.entries
unfolding add_route new_router
users-Declared = refl

users-Callable : Callable users users.entries
unfolding add_route new_router compile apply_chain chain_of
users-Callable = refl

abbrev path : Bytes
path = codes "/users/7"

decide-kind_example :
    kind (decide (build http users) (codes "HEAD") path) ≡ answer_to http users path (codes "HEAD")
decide-kind_example = decide-kind http users path users-Declared users-Callable (codes "HEAD")

find_method-build_example :
    is_some (find_method (build http users) (codes "GET") path)
    ≡ any (entry_serves (λ _. true) users (codes "GET") path) users.entries
find_method-build_example =
    find_method-build http users (codes "GET") path users-Declared users-Callable

abbrev is_200 : Outcome Req → Bool
is_200 (returned c err) = c.request_ctx.1.1 == 200
is_200 (panicked c) = false

abbrev answers_200 : (Context Req → Outcome Req) → Bool
answers_200 f =
    is_200 (f (record { request_ctx = ([], ([], 0)); params = []; jwt_claims = none; locals = [] }))

-- An authentication middleware that lets nothing through.
abbrev closed : Middleware Req
closed next = some (answer 401)

abbrev get_users : RouteEntry Req
get_users = record {
  method = codes "GET";
  path = codes "/users";
  handler = some (answer 200);
  mws = [];
  info = 0;
}

compile-rejects_example :
    compile (set_auth_middleware closed users) get_users
    ≡ compile (set_auth_middleware closed users) (record get_users { handler = none; mws = [] })
unfolding is_no_auth add_route new_router
compile-rejects_example = compile-rejects users get_users closed none [] (λ next next'. refl) refl

abbrev open_users : Router Req
open_users = on_info no_auth 0 users

abbrev third : RouteEntry Req
third = record get_users { info = 2 }
