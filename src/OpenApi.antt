-- ===== src/OpenApi.antt =====
-- openapi/generator.go: the document that describes a list of routes. Reflection on Go types and the
-- quoting of fmt's %q are an interface.
pub mod Grouping
pub mod Models
mod Tests
use goichi.Prelude.{
  ℕ, Bool, true, false, not, ◌||◌, Option, none, some, List, [], ◌∷◌, ◌++◌, map, ◌==◌,
  if◌then◌else◌, is_empty, is_some,
}
use goichi.Prelude.Text.{Bytes, codes, bytes_eq, split, lower, upper}
use goichi.Http
use goichi.Http.{Value, lookup, join}
use goichi.Router.{RouteInfo}

-- %q, reflectModel with its schema and its example, and reflectHeaderParams with the headers to skip.
pub record Reflection : Type 0 where
  pub quote : Bytes → Bytes
  pub reflect_model : Value → Bytes × Bytes
  pub reflect_header_params : Value → List Bytes → Bytes

pub data SecurityScheme : Type 0 where
  security_none security_bearer security_api_key security_basic : SecurityScheme
  other_scheme : Bytes → SecurityScheme

abbrev pub scheme_name : SecurityScheme → Bytes
scheme_name security_none = []
scheme_name security_bearer = codes "bearer"
scheme_name security_api_key = codes "apikey"
scheme_name security_basic = codes "basic"
scheme_name (other_scheme s) = s

abbrev pub build_security_schemes : SecurityScheme → Bytes
build_security_schemes security_bearer =
    codes "\"bearer\":{\"type\":\"http\",\"scheme\":\"bearer\",\"bearerFormat\":\"JWT\"}"
build_security_schemes security_api_key =
    codes "\"apikey\":{\"type\":\"apiKey\",\"in\":\"header\",\"name\":\"X-API-Key\"}"
build_security_schemes security_basic = codes "\"basic\":{\"type\":\"http\",\"scheme\":\"basic\"}"
build_security_schemes security_none = []
build_security_schemes (other_scheme s) = []

-- The headers that a scheme stands for already.
abbrev pub skip_headers : SecurityScheme → List Bytes
skip_headers security_bearer = codes "Authorization" ∷ []
skip_headers security_basic = codes "Authorization" ∷ []
skip_headers security_api_key = codes "X-API-Key" ∷ []
skip_headers security_none = []
skip_headers (other_scheme s) = []

-- The name of a segment that is a parameter or a catch-all.
abbrev pub param_of : Bytes → Option Bytes
param_of [] = none
param_of (c ∷ name) = if c == b':' || c == b'*' then some name else none

abbrev pub braces : Bytes → Bytes
braces name = b'{' ∷ name ++ b'}' ∷ []

abbrev pub template_segment : Bytes → Bytes
template_segment p = elim (param_of p) [ none ↦ p | some name ↦ braces name ]

abbrev pub put_option : {A : Type 0} → Option A → List A → List A
put_option none xs = xs
put_option (some x) xs = x ∷ xs

abbrev pub params_in : List Bytes → List Bytes
params_in [] = []
params_in (p ∷ parts) = put_option (param_of p) (params_in parts)

unfoldable pub extract_path_params : Bytes → List Bytes
unfolding split
extract_path_params path = params_in (split b'/' path)

unfoldable pub to_open_api_path : Bytes → Bytes
unfolding split join
to_open_api_path path = join (codes "/") (map template_segment (split b'/' path))

-- A block behind another one, with a comma where there is one.
abbrev pub and_block : Bytes → Bytes → Bytes
and_block [] b = b
and_block (c ∷ a) b = c ∷ a ++ (codes "," ++ b)

module _ (R : Reflection) where
  abbrev pub path_param : Bytes → Bytes
  path_param name =
      codes "{\"name\":"
      ++ (R.quote name
          ++ (codes ",\"in\":\"path\",\"required\":true,\"description\":"
              ++ (R.quote (name ++ codes " path parameter")
                  ++ codes ",\"schema\":{\"type\":\"string\"}}")))

  abbrev pub add_params : Bytes → List Bytes → Bytes
  add_params block [] = block
  add_params block (name ∷ rest) = add_params (and_block block (path_param name)) rest

  abbrev pub content_of : Bytes × Bytes → Bytes
  content_of (schema, example) =
      codes "{\"schema\":" ++ (schema ++ (codes ",\"example\":" ++ (example ++ codes "}")))

  abbrev pub responses_block : Option Value → Bytes
  responses_block none = codes "\"responses\":{\"200\":{\"description\":\"OK\"}}"
  responses_block (some model) =
      codes "\"responses\":{\"200\":{\"description\":\"OK\",\"content\":{\"application/json\":"
      ++ (content_of (R.reflect_model model) ++ codes "}}}")

  abbrev pub request_block : Bytes → Option Value → Bytes
  request_block content_type none = []
  request_block content_type (some model) =
      codes ",\"requestBody\":{\"required\":true,\"content\":{"
      ++ (R.quote (if is_empty content_type then codes "application/json" else content_type)
          ++ (codes ":" ++ (content_of (R.reflect_model model) ++ codes "}}")))

  abbrev pub header_params : SecurityScheme → Option Value → Bytes
  header_params security none = []
  header_params security (some model) = R.reflect_header_params model (skip_headers security)

  abbrev pub parameters_block : SecurityScheme → RouteInfo → Bytes
  parameters_block security r =
      let block =
        add_params (header_params security r.request_model) (extract_path_params r.path) in
      if is_empty block then [] else codes ",\"parameters\":[" ++ (block ++ codes "]")

  abbrev pub security_req : SecurityScheme → RouteInfo → Bytes
  security_req security r =
      if r.no_auth
      then codes ",\"security\":[]"
      else if is_empty (scheme_name security)
      then []
      else codes ",\"security\":[{\"" ++ (scheme_name security ++ codes "\":[]}]")

  abbrev pub quoted_tag : Bytes → Bytes
  quoted_tag t = codes "\"" ++ (t ++ codes "\"")

  abbrev pub tags_of : List Bytes → Bytes
  tags_of [] = codes "[\"default\"]"
  tags_of (t ∷ ts) = codes "[" ++ (join (codes ",") (map quoted_tag (t ∷ ts)) ++ codes "]")

  abbrev pub summary_of : RouteInfo → Bytes
  summary_of r =
      if is_empty r.summary then map upper r.method ++ (codes " " ++ r.path) else r.summary

  -- The object of one route.
  unfoldable pub operation : SecurityScheme → RouteInfo → Bytes
  unfolding extract_path_params join
  operation security r =
      R.quote (map lower r.method)
      ++ (codes ":{\"summary\":"
          ++ (R.quote (summary_of r)
              ++ (codes ",\"tags\":"
                  ++ (tags_of r.tags
                      ++ (parameters_block security r
                          ++ (codes ","
                              ++ (responses_block r.response_model
                                  ++ (request_block r.content_type r.request_model
                                      ++ (security_req security r ++ codes "}")))))))))

-- The paths in their order, and the operations of each.
pub record Paths : Type 0 where
  pub order : List Bytes
  pub grouped : List (Bytes × List Bytes)

abbrev pub ops_in : Option (List Bytes) → List Bytes
ops_in none = []
ops_in (some ops) = ops

abbrev pub operations_at : Bytes → Paths → List Bytes
operations_at path s = ops_in (lookup path s.grouped)

unfoldable pub add_operation : Bytes → Bytes → Paths → Paths
unfolding lookup Http.insert
add_operation path op s = record {
  order = if is_some (lookup path s.grouped) then s.order else s.order ++ path ∷ [];
  grouped = Http.insert path (operations_at path s ++ op ∷ []) s.grouped;
}

module _ (R : Reflection) (security : SecurityScheme) where
  -- The loop over the routes.
  unfoldable pub group_routes : List RouteInfo → Paths → Paths
  unfolding add_operation
  group_routes [] s = s
  group_routes (r ∷ routes) s =
      group_routes routes (add_operation (to_open_api_path r.path) (operation R security r) s)

  abbrev pub path_item : Paths → Bytes → Bytes
  path_item s path =
      R.quote path ++ (codes ":{" ++ (join (codes ",") (operations_at path s) ++ codes "}"))

  abbrev pub components_of : Bytes
  components_of =
      let schemes = build_security_schemes security in
      if is_empty schemes
      then []
      else codes ",\"components\":{\"securitySchemes\":{" ++ (schemes ++ codes "}}")

  abbrev pub description_of : Bytes → Bytes
  description_of description =
      if is_empty description then [] else codes ",\"description\":" ++ R.quote description

  unfoldable pub generate_schema : Bytes → Bytes → List RouteInfo → Bytes
  unfolding group_routes to_open_api_path operation join lookup
  generate_schema title description routes =
      let s = group_routes routes (record { order = []; grouped = [] }) in
      codes "{\n  \"openapi\":\"3.0.0\",\n  \"info\":{\"title\":"
      ++ (R.quote title
          ++ (description_of description
              ++ (codes ",\"version\":\"1.0.0\"},\n  \"paths\":{"
                  ++ (join (codes ",") (map (path_item s) s.order)
                      ++ (codes "}" ++ (components_of ++ codes "\n}"))))))

-- strings.Replace(s, ".js", ".css", 1)
unfoldable pub css_of : Bytes → Bytes
css_of [] = []
css_of (a ∷ []) = a ∷ []
css_of (a ∷ b ∷ []) = a ∷ b ∷ []
css_of (a ∷ b ∷ c ∷ s) =
    let rest = css_of (b ∷ c ∷ s) in
    if bytes_eq (a ∷ b ∷ c ∷ []) (codes ".js") then codes ".css" ++ s else a ∷ rest

abbrev pub script_of : Bytes → Bytes
script_of js_url =
    if is_empty js_url
    then codes
        "https://cdn.jsdelivr.net/npm/@scalar/api-reference@latest/dist/browser/standalone.js"
    else js_url

unfoldable pub scalar_html : Bytes → Bytes → Bool → Bytes → Bytes
unfolding css_of
scalar_html page_title spec_url dark_mode js_url =
    let js = script_of js_url in
    let dark = if dark_mode then codes " data-configuration='{\"darkMode\":true}'" else [] in
    codes "<!doctype html>\n<html>\n  <head>\n    <title>"
    ++ (page_title
        ++ (codes
              "</title>\n    <meta charset=\"utf-8\" />\n    <meta name=\"viewport\" content=\"width=device-width, initial-scale=1\" />\n    <link rel=\"stylesheet\" href=\""
            ++ (css_of js
                ++ (codes "\" />\n  </head>\n  <body>\n    <script id=\"api-reference\" data-url=\""
                    ++ (spec_url
                        ++ (codes "\""
                            ++ (dark
                                ++ (codes "></script>\n    <script src=\""
                                    ++ (js ++ codes "\"></script>\n  </body>\n</html>")))))))))
