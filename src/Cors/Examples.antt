-- ===== src/Cors/Examples.antt =====
-- A Cross-Origin request to a handler that allows one origin.
use xhttp.Prelude.{◌≡◌, ◌≢◌, refl, String, true, false, none, some, [], ◌∷◌, eq_iff}
use xhttp.Prelude.Dict.{lookup}
use xhttp.Http.{Response, Exchange, serve_next}
use xhttp.Cors.Serve.{Parameters, serve}
use xhttp.Prelude.{◌⊎◌}
use xhttp.Prelude.Dict.{insert}
use xhttp.Prelude.Int.{pos}
use xhttp.Prelude.Text.{to_lower}
use xhttp.Http.{Request, header_values, get_header, add_header, set_header}
use xhttp.Cors.Sets.{origin_is_present, contains, has}
use xhttp.Cors.Serve.{on_header, set_allow_credentials}
use xhttp.Cors.Preflight.{Preflight, preflight, grant}
use xhttp.Cors.Untouched.{methods_of, origin_of}
use xhttp.Cors.Granted.{IsGranted, preflight-IsGranted}
use xhttp.Cors.Laws.{answered_origin, serve-allow_origin}

abbrev parameters : Parameters
parameters = record {
  allowed_origins = "https://a.org" ∷ [];
  allowed_headers = "Accept" ∷ [];
  allowed_content_types = [];
  expose_headers = "X-Total" ∷ [];
  allowed_methods = "GET" ∷ [];
  allow_credentials = true;
}

abbrev asks : Exchange
asks = record {
  req = record {
    method = "GET";
    scheme = "https";
    path = "/";
    header = ("Origin", "https://a.org" ∷ []) ∷ ("Content-Type", "text/plain" ∷ []) ∷ [];
    cookies = [];
    ctx = [];
  };
  res = record { header = []; sent = none; body = [] };
}

origin-ne-nil : ◌≢◌ {A = String} "https://a.org" ""
origin-ne-nil e = let t : false ≡ true = (eq_iff "https://a.org" "").1 e in cc

serve-allow_origin_example :
    (w : Response) × (serve parameters none asks ≡ serve_next none (record asks { res = w }))
    × (lookup "Access-Control-Allow-Origin" w.header
        ≡ some (answered_origin "https://a.org" parameters.allowed_origins ∷ []))
    × (lookup "Access-Control-Allow-Credentials" w.header ≡ some ("true" ∷ []))
unfolding lookup
serve-allow_origin_example =
    serve-allow_origin parameters none asks "https://a.org" origin-ne-nil refl

abbrev preflight_request : Request
preflight_request = record asks.req {
  method = "OPTIONS";
  header =
      ("Origin", "https://a.org" ∷ [])
      ∷ ("Access-Control-Request-Method", "GET" ∷ [])
      ∷ ("Access-Control-Request-Headers", "X-Id" ∷ [])
      ∷ [];
}

-- The parameters with every header allowed.
abbrev open_preflight : Preflight
open_preflight = record {
  parameters = record parameters { allowed_headers = "*" ∷ [] };
  max_age = pos 0;
}

abbrev granted_response : Response
granted_response = grant open_preflight "GET" ("X-Id" ∷ []) (
    on_header (add_header "Vary" "Access-Control-Request-Headers") (
      on_header (add_header "Vary" "Access-Control-Request-Method")
        (on_header (add_header "Vary" "Origin") asks.res)))

preflight_test : preflight open_preflight preflight_request asks.res ≡ some granted_response
unfolding preflight origin_is_present get_header header_values contains lookup has to_lower
preflight_test = refl

granted_test : methods_of granted_response ≡ some ("GET" ∷ [])
unfolding grant lookup set_header set_allow_credentials add_header insert
granted_test = refl

preflight-IsGranted_example :
    ((methods_of granted_response ≡ methods_of asks.res)
      ⊎ IsGranted open_preflight preflight_request granted_response)
    × (origin_of granted_response ≡ origin_of asks.res)
preflight-IsGranted_example =
    preflight-IsGranted open_preflight preflight_request asks.res granted_response preflight_test
