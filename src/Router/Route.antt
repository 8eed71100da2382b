-- ===== src/Router/Route.antt =====
-- route.go: the methods of a Route change the info that it points to; `Router.on_info` and
-- `Router.on_each` apply them to one Route and to a Routes.
use goichi.Prelude.{true, Option, List}
use goichi.Prelude.Text.{Bytes}
use goichi.Http.{Value}
use goichi.Router.{RouteInfo}

abbrev pub summary : Bytes → RouteInfo → RouteInfo
summary s i = record i { summary = s }

abbrev pub tags : List Bytes → RouteInfo → RouteInfo
tags ts i = record i { tags = ts }

abbrev pub response_model : Option Value → RouteInfo → RouteInfo
response_model model i = record i { response_model = model }

abbrev pub request_model : Option Value → RouteInfo → RouteInfo
request_model model i = record i { request_model = model }

abbrev pub no_auth : RouteInfo → RouteInfo
no_auth i = record i { no_auth = true }

abbrev pub hide_doc : RouteInfo → RouteInfo
hide_doc i = record i { hide_doc = true }

abbrev pub content_type : Bytes → RouteInfo → RouteInfo
content_type ct i = record i { content_type = ct }
