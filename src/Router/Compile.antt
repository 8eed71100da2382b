-- ===== src/Router/Compile.antt =====
-- router.go: build and buildFallbacks, which compile the declared routes into one tree per method.
use goichi.Prelude.{
  ℕ, Bool, true, false, not, Option, none, some, List, [], ◌∷◌, ◌++◌, if◌then◌else◌, get_elem?,
  drop, is_empty,
}
use goichi.Prelude.Text.{Bytes, codes, bytes_eq}
use goichi.Http
use goichi.Http.{
  Value, text, FastHttp, Context, Outcome, returned, panicked, Handler, Middleware, lookup, get,
  on_ctx, write_json_error,
}
use goichi.Tree
use goichi.Tree.{Node, Nodes, node, nil, static}
use goichi.Router.{RouteInfo, RouteEntry, FallbackHandlers, Router}
use goichi.Router.Paths.{match_path}

abbrev pub root_path : Bytes
root_path = b'/' ∷ []

abbrev pub allow_locals_key : Bytes
allow_locals_key = codes "goichi.allow"

module _ {C : Type 0} where
  -- The loop that applies a chain from its end to its start.
  unfoldable pub apply_chain : List (Middleware C) → Handler C → Handler C
  apply_chain [] h = h
  apply_chain (m ∷ ms) h = m (apply_chain ms h)

  -- e.info.NoAuth, read when the table is compiled.
  unfoldable pub is_no_auth : RouteEntry C → List RouteInfo → Bool
  is_no_auth e infos = elim (get_elem? infos e.info) [ none ↦ false | some i ↦ i.no_auth ]

  unfoldable pub auth_part : Option (Middleware C) → Bool → List (Middleware C)
  auth_part none no_auth = []
  auth_part (some m) no_auth = if no_auth then [] else m ∷ []

  unfoldable pub chain_of : Router C → RouteEntry C → List (Middleware C)
  unfolding auth_part is_no_auth
  chain_of r e = r.middlewares ++ (auth_part r.auth_middleware (is_no_auth e r.routes) ++ e.mws)

  unfoldable pub compile : Router C → RouteEntry C → Handler C
  unfolding apply_chain chain_of
  compile r e = apply_chain (chain_of r e) e.handler

  abbrev pub fold_case : Router C → Bool
  fold_case r = not r.case_sensitive

  abbrev pub empty_root : Node (Context C → Outcome C)
  empty_root = node [] static nil none []

  abbrev pub tree_of :
      Bytes → List (Bytes × Node (Context C → Outcome C)) → Node (Context C → Outcome C)
  tree_of method trees = elim (lookup method trees) [ none ↦ empty_root | some n ↦ n ]

  abbrev pub set_handler : Handler C → Node (Context C → Outcome C) → Node (Context C → Outcome C)
  set_handler h (node p ty cs _ k) = node p ty cs h k

  -- A compiled handler goes to the root, or below it without the leading slash.
  unfoldable pub place :
      Bool → Bool → Bytes → Handler C → Node (Context C → Outcome C) → Node (Context C → Outcome C)
  place strict ci path h root =
      let path' = match_path strict path in
      if bytes_eq path' root_path then set_handler h root else Tree.insert root (drop 1 path') h ci

  unfoldable pub build_entry :
      Router C
      → RouteEntry C
      → List (Bytes × Node (Context C → Outcome C))
      → List (Bytes × Node (Context C → Outcome C))
  build_entry r e trees =
      Http.insert e.method
        (place r.strict_slash (fold_case r) e.path (compile r e) (tree_of e.method trees)) trees

  unfoldable pub build_entries :
      Router C
      → List (RouteEntry C)
      → List (Bytes × Node (Context C → Outcome C))
      → List (Bytes × Node (Context C → Outcome C))
  build_entries r [] trees = trees
  build_entries r (e ∷ es) trees = build_entries r es (build_entry r e trees)

  module _ (F : FastHttp C) where
    unfoldable pub set_allow_header : Context C → Context C
    unfolding get
    set_allow_header c = elim (get allow_locals_key c) [
      | some (text allow) ↦
          if is_empty allow then c else on_ctx (F.set_header (codes "Allow") allow) c
      | _ ↦ c
    ]

    -- SetStatusCode, then the result of WriteJSONError.
    unfoldable pub respond_error : ℕ → Bytes → Context C → Outcome C
    unfolding write_json_error
    respond_error status msg c =
        let (ctx, err) = write_json_error F msg (F.set_status status c.request_ctx) in
        returned (record c { request_ctx = ctx }) err

    unfoldable pub build_fallbacks : Router C → FallbackHandlers C
    unfolding apply_chain set_allow_header respond_error
    build_fallbacks r = record {
      not_found = apply_chain r.middlewares (some (respond_error 404 (codes "not found")));
      not_allowed =
          apply_chain r.middlewares
            (some (λ c. respond_error 405 (codes "method not allowed") (set_allow_header c)));
      options =
          apply_chain r.middlewares
            (some (λ c. returned (on_ctx (F.set_status 204) (set_allow_header c)) none));
    }

    unfoldable pub build : Router C → Router C
    unfolding build_entries build_fallbacks
    build r = record r { trees = build_entries r r.entries []; fallback = some (build_fallbacks r) }

    -- buildOnce.Do(r.build)
    unfoldable pub build_once : Router C → Router C
    unfolding build
    build_once r = if r.built then r else record (build r) { built = true }
