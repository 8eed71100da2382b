-- ===== src/OpenApi/Models/Params.antt =====
-- openapi/generator.go: the headers and queries of a model, and the interface that the document is written
-- over, filled by the two walks.
use goichi.Prelude.{Option, none, some, List, [], ◌∷◌, ◌++◌, if◌then◌else◌, is_empty}
use goichi.Prelude.Text.{Bytes, codes, bytes_eq}
use goichi.Http.{Value, join}
use goichi.Router.Dispatch.{contains}
use goichi.OpenApi.{Reflection}
use goichi.OpenApi.Models.{
  Go, FieldInfo, Shown, ShownFields, nil_pointer, pointer, slice_shown, struct_shown, no_fields,
  shown_field, is_required, is_embedded, bool_text, reflect_model,
}

-- The type that a pointer is to, and the one that a slice is of.
abbrev pub pointed : Shown → Shown
pointed (nil_pointer zero_value) = zero_value
pointed (pointer v) = v
pointed v = v

abbrev pub slice_item : Shown → Shown
slice_item (slice_shown item) = pointed item
slice_item v = v

module _ (G : Go) where
  -- A parameter of the document, from a header or a query.
  abbrev pub request_param : Bytes → FieldInfo → Bytes → Bytes
  request_param place f name =
      codes "{\"name\":"
      ++ (G.quote name
          ++ (codes ",\"in\":\""
              ++ (place
                  ++ (codes "\",\"required\":"
                      ++ (bool_text (is_required f)
                          ++ (codes ",\"description\":"
                              ++ (G.quote (
                                    if is_empty f.desc
                                    then name
                                      ++ (codes " "
                                          ++ (if bytes_eq place (codes "query")
                                              then codes "parameter"
                                              else place))
                                    else f.desc)
                                  ++ codes ",\"schema\":{\"type\":\"string\"}}")))))))

  -- A header that is skipped takes the field's query with it.
  abbrev pub params_of : List Bytes → FieldInfo → List Bytes
  params_of skip f =
      let query =
        if is_empty f.tags.query then [] else request_param (codes "query") f f.tags.query ∷ [] in
      if is_empty f.tags.header
      then query
      else if contains skip f.tags.header
      then []
      else request_param (codes "header") f f.tags.header ∷ query

  unfoldable mutual
    pub header_params_recursive : List Bytes → ShownFields → List Bytes → List Bytes
    header_params_recursive skip no_fields params = params
    header_params_recursive skip (shown_field f v rest) params =
        let inner = header_params_embedded skip v params in
        let own = params ++ params_of skip f in
        header_params_recursive skip rest (if is_embedded f v then inner else own)

    pub header_params_embedded : List Bytes → Shown → List Bytes → List Bytes
    header_params_embedded skip (struct_shown fs) params = header_params_recursive skip fs params
    header_params_embedded skip _ params = params

  abbrev pub params_text : List Bytes → Shown → Bytes
  params_text skip (struct_shown fs) = join (codes ",") (header_params_recursive skip fs [])
  params_text skip _ = []

  unfoldable pub reflect_header_params : Option Value → List Bytes → Bytes
  unfolding header_params_recursive
  reflect_header_params none skip = []
  reflect_header_params (some model) skip = params_text skip (slice_item (pointed (G.show model)))

  -- The interface of the document, filled.
  abbrev pub reflection : Reflection
  reflection = record {
    quote = G.quote;
    reflect_model = λ v. reflect_model G (some v);
    reflect_header_params = λ v skip. reflect_header_params (some v) skip;
  }
