-- ===== src/OpenApi/Tests.antt =====
-- Three routes on two paths, at which the theorem on the document holds.
use goichi.Prelude.{ℕ, ◌≡◌, refl, true, false, List, [], ◌∷◌, ◌++◌}
use goichi.Prelude.Text.{codes}
use goichi.Http.{text}
use goichi.Router.{RouteInfo, new_info}
use goichi.OpenApi.{
  Reflection, security_bearer, operations_at, operation, extract_path_params, to_open_api_path,
  group_routes,
}
use goichi.OpenApi.Models.{
  Go, FieldInfo, ShownFields, struct_shown, shown_field, no_fields, string_shown, int_shown,
  nil_pointer, slice_shown, other_shown,
}
use goichi.OpenApi.Models.Params.{reflect_header_params, reflection}
use goichi.OpenApi.Grouping.{times, empty_paths, group_routes-grouped}

abbrev plain : Reflection
plain = record {
  quote = λ s. codes "\"" ++ s ++ codes "\"";
  reflect_model = λ v. (codes "{}", codes "{}");
  reflect_header_params = λ v skip. [];
}

abbrev routes : List RouteInfo
routes =
    new_info (codes "GET") (codes "/u/:id")
    ∷ new_info (codes "GET") (codes "/u")
    ∷ new_info (codes "PUT") (codes "/u/*id")
    ∷ []

extract_path_params_test :
    extract_path_params (codes "/a/:id/*rest") ≡ codes "id" ∷ codes "rest" ∷ []
unfolding extract_path_params
extract_path_params_test = refl

group_routes-grouped_example :
    (operations_at (codes "/u/{id}") (group_routes plain security_bearer routes empty_paths)
      ≡ operation plain security_bearer (new_info (codes "GET") (codes "/u/:id"))
        ∷ operation plain security_bearer (new_info (codes "PUT") (codes "/u/*id"))
        ∷ [])
    × (times (codes "/u/{id}") (group_routes plain security_bearer routes empty_paths).order ≡ 1)
unfolding to_open_api_path
group_routes-grouped_example = group_routes-grouped plain security_bearer (codes "/u/{id}") routes

abbrev go : Go
go = record { quote = λ s. codes "\"" ++ s ++ codes "\""; show = λ v. other_shown }

-- Names in Go and in JSON, the header, the rules.
abbrev info : List ℕ → List ℕ → List ℕ → List ℕ → FieldInfo
info name json header validate = record {
  tags = record {
    name = name;
    json = json;
    query = [];
    param = [];
    header = header;
    validate = validate;
  };
  desc = [];
  anonymous = false;
}

abbrev embedded : ShownFields
embedded = shown_field (info (codes "Id") (codes "id") [] []) (int_shown (codes "0")) no_fields

-- An embedded struct, a required string, a header and a list of pointers to strings.
abbrev user : ShownFields
user =
    shown_field (record (info (codes "Base") [] [] []) { anonymous = true }) (struct_shown embedded)
      (shown_field (info (codes "Mail") (codes "mail,omitempty") [] (codes "required,email"))
        (string_shown (codes "Email") [])
        (shown_field (info (codes "Token") [] (codes "Authorization") []) (string_shown [] []) (
          shown_field (info (codes "Tags") [] [] [])
            (slice_shown (nil_pointer (string_shown (codes "string") []))) no_fields)))

abbrev mail : Go
mail = record go { show = λ v. slice_shown (nil_pointer (struct_shown user)) }

-- Bearer authentication takes the Authorization header out of the document.
reflect_header_params_test :
    ((reflection mail).reflect_header_params (text []) (codes "Authorization" ∷ []) ≡ [])
    × ((reflection mail).reflect_header_params (text []) []
        ≡ codes
            "{\"name\":\"Authorization\",\"in\":\"header\",\"required\":false,\"description\":\"Authorization header\",\"schema\":{\"type\":\"string\"}}")
unfolding reflect_header_params goichi.Http.join goichi.Middleware.Body.has_substr
reflect_header_params_test = (refl, refl)
