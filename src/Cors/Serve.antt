-- ===== src/Cors/Serve.antt =====
-- handlers/cors/cors.go: Handler, Parameters, NewHandler, and Handler.ServeHTTP with the headers
-- that it sets.
use xhttp.Prelude.{
  String, Bool, true, false, Option, none, some, List, [], ◌∷◌, ◌&&◌, not, if◌then◌else◌,
}
use xhttp.Prelude.Dict.{Dict}
use xhttp.Http.{Request, Response, Handler, serve_next, header_values, add_header, set_header}
use xhttp.Linker.{Linker}
use xhttp.Cors.Sets.{
  add, contains, headers_are_allowed, method_is_allowed, content_type_is_allowed, origin_is_present,
  simple_request_methods, simple_request_headers, simple_request_content_types,
}

-- Parameters; the handler and its preflight handler share one object.
pub record Parameters : Type 0 where
  pub allowed_origins : List String
  pub allowed_headers : List String
  pub allowed_content_types : List String
  pub expose_headers : List String
  pub allowed_methods : List String
  pub allow_credentials : Bool

-- NewHandler
unfoldable pub new_parameters : Parameters
unfolding add
new_parameters = record {
  allowed_origins = [];
  allowed_headers =
      add ("Accept" ∷ "Accept-Language" ∷ "Content-Language" ∷ "Content-Type" ∷ "Origin" ∷ []) [];
  allowed_content_types =
      add ("application/x-www-form-urlencoded" ∷ "multipart/form-data" ∷ "text/plain" ∷ []) [];
  expose_headers = [];
  allowed_methods = [];
  allow_credentials = false;
}

-- WithCredentials
unfoldable pub with_credentials : Parameters → Parameters
with_credentials p = record p { allow_credentials = true }

abbrev pub on_header : (Dict (List String) → Dict (List String)) → Response → Response
on_header f w = record w { header = f w.header }

abbrev pub allow_origin : List String → List String → Response → Response
allow_origin (ori ∷ []) allowed w =
    if not (contains ori true allowed)
    then (if contains "*" true allowed
        then on_header (set_header "Access-Control-Allow-Origin" ori) w
        else on_header (set_header "Access-Control-Allow-Origin" "null") w)
    else on_header (set_header "Access-Control-Allow-Origin" ori) w
allow_origin _ allowed w = w

abbrev pub allow_origin_from : Option (List String) → List String → Response → Response
allow_origin_from none allowed w = w
allow_origin_from (some origin) allowed w = allow_origin origin allowed w

-- setAllowOrigin
unfoldable pub set_allow_origin : Request → List String → Response → Response
set_allow_origin r allowed w = allow_origin_from (header_values "Origin" r.header) allowed w

-- setAllowCredentials
unfoldable pub set_allow_credentials : Bool → Response → Response
set_allow_credentials b w =
    if b
    then on_header (set_header "Access-Control-Allow-Credentials" "true") w
    else on_header (set_header "Access-Control-Allow-Credentials" "false") w

abbrev pub add_each : String → List String → Response → Response
add_each key [] w = w
add_each key (v ∷ vs) w = add_each key vs (on_header (add_header key v) w)

-- setExposeHeaders
unfoldable pub set_expose_headers : List String → Response → Response
set_expose_headers s w = add_each "Access-Control-Expose-Headers" s w

-- setAllowMethods
unfoldable pub set_allow_methods : List String → Response → Response
set_allow_methods s w = add_each "Access-Control-Allow-Methods" s w

-- setAllowHeaders
unfoldable pub set_allow_headers : List String → Response → Response
set_allow_headers s w = add_each "Access-Control-Allow-Headers" s w

-- The three nested tests for a simple request.
unfoldable pub is_simple : Request → Bool
is_simple r =
    method_is_allowed r simple_request_methods
    && headers_are_allowed r simple_request_headers
    && content_type_is_allowed r simple_request_content_types

-- Handler.ServeHTTP
unfoldable pub serve : Parameters → Option Handler → Handler
serve p next x =
    let y = record x { res = on_header (add_header "Vary" "Origin") x.res } in
    if not (origin_is_present x.req)
    then serve_next next y
    else if is_simple x.req
    then serve_next next y
    else serve_next next (record y {
      res = set_expose_headers p.expose_headers (
          set_allow_credentials p.allow_credentials
            (set_allow_origin x.req p.allowed_origins y.res));
    })

-- The handler as a link of a chain.
abbrev pub handler : Parameters → Linker
handler p = record { run = serve p; next = none }
