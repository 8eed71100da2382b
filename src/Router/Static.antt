-- ===== src/Router/Static.antt =====
-- router.go: Static and EnableDocs, which declare a route of their own. The file server of fasthttp is
-- a parameter, which takes how many bytes of a path it strips.
use goichi.Prelude.{ℕ, ◌-◌, none, some, [], ◌++◌, if◌then◌else◌, length}
use goichi.Prelude.Text.{Bytes, codes}
use goichi.Http.{FastHttp, Context, Outcome, returned, on_ctx}
use goichi.Router.{Router, rooted, modify, add_route, on_info}
use goichi.Router.Paths.{ends_in_slash}
use goichi.Router.Route.{hide_doc}

-- The prefix with one slash at its end at least.
unfoldable pub strip_prefix : Bytes → Bytes
unfolding ends_in_slash
strip_prefix prefix = if ends_in_slash prefix then prefix else prefix ++ codes "/"

unfoldable pub static_path : Bytes → Bytes
unfolding strip_prefix
static_path prefix = strip_prefix prefix ++ codes "*filepath"

module _ {C : Type 0} where
  -- The router and the new Route, which the documents do not list.
  unfoldable pub static_route : (Bytes → ℕ → C → C) → Bytes → Bytes → Router C → Router C × ℕ
  unfolding rooted static_path add_route modify
  static_route files prefix root r =
      let prefix' = rooted prefix in
      let serve : Context C → Outcome C =
        λ c. returned (on_ctx (files root (length (strip_prefix prefix') - 1)) c) none in
      let (r', route) = add_route (codes "GET") (static_path prefix') (some serve) [] r in
      (on_info hide_doc route r', route)

  unfoldable pub enable_docs : FastHttp C → Bytes → Bytes → Router C → Router C × ℕ
  unfolding add_route
  enable_docs F path html r =
      add_route (codes "GET") path
        (some (λ c.
          returned (on_ctx (λ ctx. F.set_body html (F.set_content_type (codes "text/html") ctx)) c)
            none))
        [] r
