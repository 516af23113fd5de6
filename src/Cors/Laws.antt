-- ===== src/Cors/Laws.antt =====
-- What the answers to Cross-Origin requests allow.
use xhttp.Prelude.{
  ◌≡◌, ◌≢◌, refl, ◌∙◌, ap, String, Bool, true, false, Option, some, List, [], ◌∷◌, ◌&&◌, ◌||◌, not,
  arith, if◌then◌else◌, ◌==◌,
}
use xhttp.Prelude.Dict.{lookup}
use xhttp.Http.{
  Request, Response, Exchange, Handler, serve_next, header_values, add_header, set_header,
  lookup-add_header, lookup-set_header, get_header-some,
}
use xhttp.Prelude.Text.{nonempty-is_false}
use xhttp.Cors.Sets.{
  contains, simple_request_methods, simple_request_headers, simple_request_content_types,
  method_is_allowed, headers_are_allowed, content_type_is_allowed, types_allowed, or_empty,
  origin_is_present,
}
use xhttp.Cors.Serve.{
  Parameters, on_header, add_each, set_allow_origin, set_allow_credentials, set_expose_headers,
  is_simple, serve, allow_origin_from,
}

types_allowed-false : (ct s : List String) → types_allowed false ct s ≡ false
unfolding types_allowed
types_allowed-false [] s = refl
types_allowed-false (val ∷ ct) s = types_allowed-false ct s

-- No content type is ever allowed: the test starts from false and only takes conjunctions.
pub content_type_is_allowed-false :
    (r : Request) (s : List String) → content_type_is_allowed r s ≡ false
unfolding content_type_is_allowed
content_type_is_allowed-false r s =
    types_allowed-false (or_empty (header_values "Content-Type" r.header)) s

-- A conjunction with a false last member is false.
last-false : (a b c : Bool) → c ≡ false → (a && b && c) ≡ false
last-false a b c h = ground arith

is_simple-false : (r : Request) → is_simple r ≡ false
unfolding is_simple
is_simple-false r =
    last-false (method_is_allowed r simple_request_methods)
      (headers_are_allowed r simple_request_headers)
      (content_type_is_allowed r simple_request_content_types)
      (content_type_is_allowed-false r simple_request_content_types)

pub lookup-add_each :
    (key j : String) (vs : List String) (w : Response)
    → (key == j) ≡ false
    → lookup j (add_each key vs w).header ≡ lookup j w.header
lookup-add_each key j [] w ne = refl
lookup-add_each key j (v ∷ vs) w ne =
    lookup-add_each key j vs (on_header (add_header key v) w) ne
    ∙ lookup-add_header key j v w.header
    ∙ rw ne

-- The value of Access-Control-Allow-Origin for a request from `ori`.
abbrev pub answered_origin : String → List String → String
answered_origin ori allowed =
    if contains ori true allowed || contains "*" true allowed then ori else "null"

-- The response that a request with an Origin is passed on with.
abbrev pub cross_origin_response : Parameters → Exchange → Response
cross_origin_response p x = set_expose_headers p.expose_headers (
    set_allow_credentials p.allow_credentials
      (set_allow_origin x.req p.allowed_origins (on_header (add_header "Vary" "Origin") x.res)))

serve-cross_origin :
    (p : Parameters) (next : Option Handler) (x : Exchange)
    → origin_is_present x.req ≡ true
    → serve p next x ≡ serve_next next (record x { res = cross_origin_response p x })
unfolding serve
serve-cross_origin p next x h = rw (h, is_simple-false x.req)

origin-present :
    (r : Request) (ori : String)
    → ori ≢ ""
    → lookup "Origin" r.header ≡ some (ori ∷ [])
    → origin_is_present r ≡ true
unfolding origin_is_present
origin-present r ori ne e =
    rw (get_header-some "Origin" ori [] r.header e, nonempty-is_false ori ne)

set_allow_credentials-value :
    (b : Bool) (w : Response)
    → lookup "Access-Control-Allow-Credentials" (set_allow_credentials b w).header
      ≡ some ((if b then "true" else "false") ∷ [])
unfolding set_allow_credentials
set_allow_credentials-value true w =
    lookup-set_header "Access-Control-Allow-Credentials" "Access-Control-Allow-Credentials" "true"
      w.header
set_allow_credentials-value false w =
    lookup-set_header "Access-Control-Allow-Credentials" "Access-Control-Allow-Credentials" "false"
      w.header

set_allow_credentials-keeps :
    (b : Bool) (w : Response)
    → lookup "Access-Control-Allow-Origin" (set_allow_credentials b w).header
      ≡ lookup "Access-Control-Allow-Origin" w.header
unfolding set_allow_credentials
set_allow_credentials-keeps true w =
    lookup-set_header "Access-Control-Allow-Credentials" "Access-Control-Allow-Origin" "true"
      w.header
set_allow_credentials-keeps false w =
    lookup-set_header "Access-Control-Allow-Credentials" "Access-Control-Allow-Origin" "false"
      w.header

allow_origin-picked :
    (a b : Bool) (ori : String) (w : Response)
    → lookup "Access-Control-Allow-Origin"
        (if not a
          then (if b
              then on_header (set_header "Access-Control-Allow-Origin" ori) w
              else on_header (set_header "Access-Control-Allow-Origin" "null") w)
          else on_header (set_header "Access-Control-Allow-Origin" ori) w).header
      ≡ some ((if a || b then ori else "null") ∷ [])
allow_origin-picked true b ori w =
    lookup-set_header "Access-Control-Allow-Origin" "Access-Control-Allow-Origin" ori w.header
allow_origin-picked false true ori w =
    lookup-set_header "Access-Control-Allow-Origin" "Access-Control-Allow-Origin" ori w.header
allow_origin-picked false false ori w =
    lookup-set_header "Access-Control-Allow-Origin" "Access-Control-Allow-Origin" "null" w.header

set_allow_origin-value :
    (r : Request) (ori : String) (allowed : List String) (w : Response)
    → lookup "Origin" r.header ≡ some (ori ∷ [])
    → lookup "Access-Control-Allow-Origin" (set_allow_origin r allowed w).header
      ≡ some (answered_origin ori allowed ∷ [])
unfolding set_allow_origin header_values
set_allow_origin-value r ori allowed w e =
    ap (λ o. lookup "Access-Control-Allow-Origin" (allow_origin_from o allowed w).header) e
    ∙ allow_origin-picked (contains ori true allowed) (contains "*" true allowed) ori w

allowed_values :
    (p : Parameters) (x : Exchange) (ori : String)
    → lookup "Origin" x.req.header ≡ some (ori ∷ [])
    → lookup "Access-Control-Allow-Origin" (cross_origin_response p x).header
      ≡ some (answered_origin ori p.allowed_origins ∷ [])
unfolding set_expose_headers
allowed_values p x ori e =
    lookup-add_each "Access-Control-Expose-Headers" "Access-Control-Allow-Origin" p.expose_headers _
      refl
    ∙ set_allow_credentials-keeps p.allow_credentials _
    ∙ set_allow_origin-value x.req ori p.allowed_origins
        (on_header (add_header "Vary" "Origin") x.res) e

credential_values :
    (p : Parameters) (x : Exchange)
    → lookup "Access-Control-Allow-Credentials" (cross_origin_response p x).header
      ≡ some ((if p.allow_credentials then "true" else "false") ∷ [])
unfolding set_expose_headers
credential_values p x =
    lookup-add_each "Access-Control-Expose-Headers" "Access-Control-Allow-Credentials"
      p.expose_headers _ refl
    ∙ set_allow_credentials-value p.allow_credentials _

-- A request with one Origin that is not empty is passed on to the next handler with the request
-- unchanged, and with a response that allows this origin if it is listed or "*" is, that allows the
-- origin "null" otherwise, and that allows credentials as the parameters say. No request is exempt as
-- a simple one.
pub serve-allow_origin :
    (p : Parameters) (next : Option Handler) (x : Exchange) (ori : String)
    → ori ≢ ""
    → lookup "Origin" x.req.header ≡ some (ori ∷ [])
    → (w : Response) × (serve p next x ≡ serve_next next (record x { res = w }))
      × (lookup "Access-Control-Allow-Origin" w.header
          ≡ some (answered_origin ori p.allowed_origins ∷ []))
      × (lookup "Access-Control-Allow-Credentials" w.header
          ≡ some ((if p.allow_credentials then "true" else "false") ∷ []))
serve-allow_origin p next x ori ne e = (
  cross_origin_response p x,
  serve-cross_origin p next x (origin-present x.req ori ne e),
  allowed_values p x ori e,
  credential_values p x,
)
