-- ===== src/Csrf/Examples.antt =====
-- A POST request that carries the token of its session cookie.
use xhttp.Prelude.{◌≡◌, ◌⊎◌, refl, String, true, false, none, List, [], ◌∷◌}
use xhttp.Prelude.Dict.{lookup}
use xhttp.Prelude.Int.{pos}
use xhttp.Context.{HttpCookie, cookie}
use xhttp.Http.{Request, ctx_value}
use xhttp.Session.Action.{State, Result, ok}
use xhttp.Session.Load.{load, loaded}
use xhttp.Session.Samples.{toy_codec, newcomer}
use xhttp.Csrf.{Guard, is_safe, serve_http, serve_unsafe, check_header, check_cookie}
use xhttp.Csrf.Laws.{HasToken, serve_http-HasToken}

abbrev guard : Guard (List String)
guard = record {
  header = "X-Csrf-Token";
  session = record {
    name = "s";
    server_only = false;
    context_key = 7;
    store = none;
    cache = none;
    uuidgen = λ b. (ok "u1", b);
  };
}

-- The same cookie, with a token as its value.
abbrev token_cookie : HttpCookie
token_cookie = record newcomer.http_cookie { value = "t1" }

abbrev posted : Request
posted = record {
  method = "POST";
  scheme = "https";
  path = "/";
  header = ("X-Csrf-Token", "t1" ∷ []) ∷ [];
  cookies = [];
  ctx = (7, cookie token_cookie) ∷ [];
}

abbrev before : State (List String)
before = record {
  cookie = newcomer;
  parent_cookie = newcomer;
  backends = [];
  res = record { header = []; sent = none; body = [] };
}

abbrev no_info : Request → String
no_info r = ""

abbrev toy_random : List String → Result String × List String
toy_random b = (ok "t2", b)

serve_test :
    (serve_http toy_codec no_info (pos 100) toy_random guard none posted before).0 ≡ ok true
unfolding serve_http serve_unsafe check_header check_cookie is_safe lookup ctx_value load loaded
serve_test = refl

serve_http-HasToken_example :
    (is_safe "POST" ≡ true) ⊎ HasToken toy_codec no_info (pos 100) toy_random guard posted
serve_http-HasToken_example =
    serve_http-HasToken toy_codec no_info (pos 100) toy_random guard none posted before serve_test
