-- ===== src/Router/Dispatch.antt =====
-- router.go: HandleRequest. What it decides (which handler runs, with which parameters and which
-- allowed methods) is separate from running it.
use goichi.Prelude.{
  ℕ, Bool, true, false, ◌&&◌, Option, none, some, List, [], ◌∷◌, ◌++◌, ltb, ◌==◌, if◌then◌else◌,
  drop, is_empty, is_some, any,
}
use goichi.Prelude.Text.{Bytes, codes, bytes_eq}
use goichi.Http.{
  text, FastHttp, Error, validation, failure, Context, Outcome, returned, panicked, Handler,
  ErrorHandler, call, lookup, set, join, write_json_error, error_text,
}
use goichi.Tree.{Node, node, search}
use goichi.Router.{FallbackHandlers, Router}
use goichi.Router.Paths.{match_path}
use goichi.Router.Compile.{root_path, allow_locals_key, fold_case, build_once}

-- The order of Go strings.
unfoldable pub bytes_le : Bytes → Bytes → Bool
bytes_le [] ys = true
bytes_le (x ∷ xs) [] = false
bytes_le (x ∷ xs) (y ∷ ys) = if x == y then bytes_le xs ys else ltb x y

-- slices.Sort
unfoldable pub sort_insert : Bytes → List Bytes → List Bytes
unfolding bytes_le
sort_insert x [] = x ∷ []
sort_insert x (y ∷ ys) = if bytes_le x y then x ∷ y ∷ ys else y ∷ sort_insert x ys

unfoldable pub sort : List Bytes → List Bytes
unfolding sort_insert
sort [] = []
sort (x ∷ xs) = sort_insert x (sort xs)

abbrev pub contains : List Bytes → Bytes → Bool
contains xs s = any (λ x. bytes_eq x s) xs

unfoldable pub append_if_missing : List Bytes → Bytes → List Bytes
append_if_missing xs s = if contains xs s then xs else xs ++ s ∷ []

abbrev pub Params : Type 0
Params = List (Bytes × Bytes)

-- Which of its calls of `run` the router makes.
pub data Decision (C : Type 0) : Type 0 where
  handle : (Context C → Outcome C) → Params → Decision C
  handle_head : (Context C → Outcome C) → Params → Decision C
  answer_options : List Bytes → Decision C
  answer_not_allowed : List Bytes → Decision C
  answer_not_found : Decision C

-- The end of a request: the response is in the context, or a panic left the router.
pub data Served (C : Type 0) : Type 0 where
  served : C → Served C
  crashed : C → Served C

module _ {C : Type 0} where
  -- The root's own handler for "/", a walk of the tree for any other path.
  unfoldable pub find_handler :
      Bool → Bytes → Node (Context C → Outcome C) → Option ((Context C → Outcome C) × Params)
  find_handler ci path (node p ty cs h k) =
      if bytes_eq path root_path
      then elim h [ none ↦ none | some f ↦ some (f, []) ]
      else search (node p ty cs h k) (drop 1 path) ci

  unfoldable pub methods_with :
      Bool → Bytes → List (Bytes × Node (Context C → Outcome C)) → List Bytes
  unfolding find_handler
  methods_with ci path [] = []
  methods_with ci path ((method, root) ∷ trees) =
      let rest = methods_with ci path trees in
      if is_some (find_handler ci path root) then method ∷ rest else rest

  unfoldable pub allowed_methods : Router C → Bytes → List Bytes
  unfolding methods_with sort
  allowed_methods r path = sort (methods_with (fold_case r) path r.trees)

  abbrev pub find_method : Router C → Bytes → Bytes → Option ((Context C → Outcome C) × Params)
  find_method r method path = elim (lookup method r.trees) [
    | none ↦ none
    | some root ↦ find_handler (fold_case r) path root
  ]

  -- No route of the request's own method matches.
  unfoldable pub decide_other : Router C → Bytes → Bytes → List Bytes → Decision C
  unfolding find_handler append_if_missing lookup
  decide_other r method path [] = answer_not_found
  decide_other r method path (m ∷ ms) =
      let allowed = append_if_missing (m ∷ ms) (codes "OPTIONS") in
      if bytes_eq method (codes "OPTIONS")
      then answer_options allowed
      else if bytes_eq method (codes "HEAD") && contains (m ∷ ms) (codes "GET")
      then elim (find_method r (codes "GET") path) [
        | some (h, params) ↦ handle_head h params
        | none ↦ answer_not_allowed allowed
      ]
      else answer_not_allowed allowed

  unfoldable pub decide : Router C → Bytes → Bytes → Decision C
  unfolding decide_other allowed_methods
  decide r method path = elim (find_method r method path) [
    | some (h, params) ↦ handle h params
    | none ↦ decide_other r method path (allowed_methods r path)
  ]

  module _ (F : FastHttp C) where
    abbrev finish : Outcome C → Served C
    finish (returned c err) = served c.request_ctx
    finish (panicked c) = crashed c.request_ctx

    -- SetStatusCode and WriteJSONError, the error of which is dropped.
    unfoldable pub error_response : ℕ → Bytes → C → C
    error_response status msg ctx = (write_json_error F msg (F.set_status status ctx)).0

    unfoldable pub handle_error : Option (ErrorHandler C) → Context C → Error → Served C
    unfolding error_response error_text
    handle_error (some f) c err = finish (f c err)
    handle_error none c (validation fields) =
        served (error_response 422 (error_text fields) c.request_ctx)
    handle_error none c (failure msg) =
        served (error_response 500 (codes "internal server error") c.request_ctx)

    abbrev after_call : Option (ErrorHandler C) → Outcome C → Served C
    after_call eh (returned c none) = served c.request_ctx
    after_call eh (returned c (some err)) = handle_error eh c err
    after_call eh (panicked c) = crashed c.request_ctx

    abbrev pub new_context : C → Params → Context C
    new_context ctx params = record {
      request_ctx = ctx;
      params = params;
      jwt_claims = none;
      locals = [];
    }

    unfoldable pub run : Router C → C → Handler C → Params → List Bytes → Served C
    unfolding set join handle_error
    run r ctx handler params allowed =
        let c = new_context ctx params in
        after_call r.error_handler (
          call handler (
            if is_empty allowed
            then c
            else set allow_locals_key (text (join (codes ", ") allowed)) c))

    abbrev fallback_of : (FallbackHandlers C → Handler C) → Router C → Handler C
    fallback_of f r = elim r.fallback [ none ↦ none | some h ↦ f h ]

    -- The body of a HEAD response is dropped once its handler has returned.
    abbrev without_body : Served C → Served C
    without_body (served ctx) = served (F.reset_body ctx)
    without_body (crashed ctx) = crashed ctx

    unfoldable pub perform : Router C → C → Decision C → Served C
    unfolding run
    perform r ctx (handle h params) = run r ctx (some h) params []
    perform r ctx (handle_head h params) = without_body (run r ctx (some h) params [])
    perform r ctx (answer_options allowed) = run r ctx (fallback_of (λ f. f.options) r) [] allowed
    perform r ctx (answer_not_allowed allowed) =
        run r ctx (fallback_of (λ f. f.not_allowed) r) [] allowed
    perform r ctx answer_not_found = run r ctx (fallback_of (λ f. f.not_found) r) [] []

    abbrev request_path : Router C → C → Bytes
    request_path r ctx =
        let path = match_path r.strict_slash (F.path ctx) in
        if is_empty path then root_path else path

    unfoldable pub handle_request : Router C → C → Router C × Served C
    unfolding build_once decide perform
    handle_request r ctx =
        let r' = build_once F r in
        (r', perform r' ctx (decide r' (F.method ctx) (request_path r' ctx)))
