-- ===== src/Cors/Granted.antt =====
-- What a granted preflight answer requires and allows, and what every answer leaves as it was.
use mathlib.Core.Option.{some_inj}
use xhttp.Prelude.{
  ◌≡◌, refl, sym, ◌∙◌, ap, ◌⊎◌, inl, inr, String, true, false, Option, none, some, List, [], ◌∷◌,
  ◌||◌,
}
use xhttp.Prelude.Dict.{lookup}
use xhttp.Http.{Request, Response, header_values, add_header, lookup-add_header}
use xhttp.Cors.Sets.{contains, origin_is_present}
use xhttp.Cors.Serve.{on_header}
use xhttp.Cors.Untouched.{origin_of, methods_of, taken, grant-methods, preflight-origin}
use xhttp.Cors.Preflight.{
  Preflight, preflight, check_origin, check_method, check_headers, grant, all_allowed,
}

-- The origin, the method and every requested header of the request are listed, or a "*" is, and the
-- answer allows the requested method and no other.
pub record IsGranted (p : Preflight) (r : Request) (w : Response) : Type 0 where
  pub origin : String
  pub origins : List String
  pub method : String
  pub methods : List String
  pub header : String
  pub headers : List String
  pub from : lookup "Origin" r.header ≡ some (origin ∷ origins)
  pub asks : lookup "Access-Control-Request-Method" r.header ≡ some (method ∷ methods)
  pub lists : lookup "Access-Control-Request-Headers" r.header ≡ some (header ∷ headers)
  pub origin_allowed :
      (contains origin true p.parameters.allowed_origins
        || contains "*" false p.parameters.allowed_origins)
      ≡ true
  pub method_allowed :
      (contains method true p.parameters.allowed_methods
        || contains "*" true p.parameters.allowed_methods)
      ≡ true
  pub headers_allowed :
      (all_allowed
          (contains header false p.parameters.allowed_headers)
          (header ∷ headers)
          p.parameters.allowed_headers
        || contains "*" false p.parameters.allowed_headers)
      ≡ true
  pub allows : methods_of w ≡ some (method ∷ [])

methods_of-vary :
    (v : String) (w : Response) → methods_of (on_header (add_header "Vary" v) w) ≡ methods_of w
methods_of-vary v w = lookup-add_header "Vary" "Access-Control-Allow-Methods" v w.header

-- What the check of the headers finds where it grants.
abbrev HeadersOk : Preflight → String → Option (List String) → Response → Type 0
HeadersOk p method o w =
    (header : String) × (headers : List String) × (o ≡ some (header ∷ headers))
    × ((all_allowed (contains header false p.parameters.allowed_headers) (header ∷ headers)
            p.parameters.allowed_headers
          || contains "*" false p.parameters.allowed_headers)
        ≡ true)
    × (methods_of w ≡ some (method ∷ []))

check_headers-cases :
    (p : Preflight) (method : String) (o : Option (List String)) (w w' : Response)
    → check_headers p method o w ≡ some w'
    → (methods_of w' ≡ methods_of w) ⊎ HeadersOk p method o w'
unfolding check_headers
check_headers-cases p method none w w' e = inl (ap methods_of (sym (some_inj.0 e)))
check_headers-cases p method (some []) w w' e = absurd (cc)
check_headers-cases p method (some (h ∷ hs)) w w' e =
    elim (taken _ w w' (some (grant p method (h ∷ hs) w)) e) [
      | inl same ↦ inl (ap methods_of (sym same))
      | inr (t, e') ↦
          inr (
            h,
            hs,
            refl,
            t,
            ap methods_of (sym (some_inj.0 e')) ∙ grant-methods p method (h ∷ hs) w,
          )
    ]

abbrev MethodOk : Preflight → Request → Option (List String) → Response → Type 0
MethodOk p r o w =
    (method : String) × (methods : List String) × (o ≡ some (method ∷ methods))
    × ((contains method true p.parameters.allowed_methods
          || contains "*" true p.parameters.allowed_methods)
        ≡ true)
    × HeadersOk p method (header_values "Access-Control-Request-Headers" r.header) w

check_method-cases :
    (p : Preflight) (r : Request) (o : Option (List String)) (w w' : Response)
    → check_method p r o w ≡ some w'
    → (methods_of w' ≡ methods_of w) ⊎ MethodOk p r o w'
unfolding check_method
check_method-cases p r none w w' e = inl (ap methods_of (sym (some_inj.0 e)))
check_method-cases p r (some []) w w' e = absurd (cc)
check_method-cases p r (some (method ∷ methods)) w w' e =
    elim (taken _ w w'
      (check_headers p method (header_values "Access-Control-Request-Headers" r.header)
        (on_header (add_header "Vary" "Access-Control-Request-Headers") w))
      e) [
        | inl same ↦ inl (ap methods_of (sym same))
        | inr (t, e') ↦ elim (check_headers-cases p method _ _ w' e') [
          | inl kept ↦ inl (kept ∙ methods_of-vary "Access-Control-Request-Headers" w)
          | inr ok ↦ inr (method, methods, refl, t, ok)
        ]
      ]

abbrev OriginOk : Preflight → Request → Option (List String) → Response → Type 0
OriginOk p r o w =
    (origin : String) × (origins : List String) × (o ≡ some (origin ∷ origins))
    × ((contains origin true p.parameters.allowed_origins
          || contains "*" false p.parameters.allowed_origins)
        ≡ true)
    × MethodOk p r (header_values "Access-Control-Request-Method" r.header) w

check_origin-cases :
    (p : Preflight) (r : Request) (o : Option (List String)) (w w' : Response)
    → check_origin p r o w ≡ some w'
    → (methods_of w' ≡ methods_of w) ⊎ OriginOk p r o w'
unfolding check_origin
check_origin-cases p r none w w' e = inl (ap methods_of (sym (some_inj.0 e)))
check_origin-cases p r (some []) w w' e = absurd (cc)
check_origin-cases p r (some (origin ∷ origins)) w w' e =
    elim (taken _ w w'
      (check_method p r (header_values "Access-Control-Request-Method" r.header)
        (on_header (add_header "Vary" "Access-Control-Request-Method") w))
      e) [
        | inl same ↦ inl (ap methods_of (sym same))
        | inr (t, e') ↦ elim (check_method-cases p r _ _ w' e') [
          | inl kept ↦ inl (kept ∙ methods_of-vary "Access-Control-Request-Method" w)
          | inr ok ↦ inr (origin, origins, refl, t, ok)
        ]
      ]

OriginOk-IsGranted :
    (p : Preflight) (r : Request) (w : Response)
    → OriginOk p r (header_values "Origin" r.header) w
    → IsGranted p r w
unfolding header_values
OriginOk-IsGranted p r w
      (origin, origins, from, o, (method, methods, asks, m, (header, headers, lists, h, allows))) =
    record {
      origin = origin;
      origins = origins;
      method = method;
      methods = methods;
      header = header;
      headers = headers;
      from = from;
      asks = asks;
      lists = lists;
      origin_allowed = o;
      method_allowed = m;
      headers_allowed = h;
      allows = allows;
    }

preflight-cases :
    (p : Preflight) (r : Request) (w w' : Response)
    → preflight p r w ≡ some w'
    → (methods_of w' ≡ methods_of w) ⊎ IsGranted p r w'
unfolding preflight
preflight-cases p r w w' e =
    elim (taken (origin_is_present r) w w'
      (check_origin p r (header_values "Origin" r.header)
        (on_header (add_header "Vary" "Origin") w))
      e) [
        | inl same ↦ inl (ap methods_of (sym same))
        | inr (_, e') ↦ elim (check_origin-cases p r _ _ w' e') [
          | inl kept ↦ inl (kept ∙ methods_of-vary "Origin" w)
          | inr ok ↦ inr (OriginOk-IsGranted p r w' ok)
        ]
      ]

-- The answer to a preflight request either allows the methods that the response allowed before, or
-- was granted: the origin, the method and every requested header are listed, or a "*" is, and it
-- allows just the requested method. Granted or not, Access-Control-Allow-Origin stays as it was.
pub preflight-IsGranted :
    (p : Preflight) (r : Request) (w w' : Response)
    → preflight p r w ≡ some w'
    → ((methods_of w' ≡ methods_of w) ⊎ IsGranted p r w') × (origin_of w' ≡ origin_of w)
preflight-IsGranted p r w w' e = (preflight-cases p r w w' e, preflight-origin p r w w' e)
