-- ===== src/Filters/Examples.antt =====
-- A request through the prefix handler and through the panic handler.
use xhttp.Prelude.{◌≡◌, ◌≢◌, refl, String, true, false, none, some, [], eq_iff}
use xhttp.Prelude.Text.{trim_prefix}
use xhttp.Http.{Exchange, Handler, returned, http_error}
use xhttp.Filters.{stripprefix_serve}
use xhttp.Filters.Laws.{stripprefix_serve-append}

abbrev asks : String → Exchange
asks path = record {
  req = record {
    method = "GET";
    scheme = "http";
    path = path;
    header = [];
    cookies = [];
    ctx = [];
  };
  res = record { header = []; sent = none; body = [] };
}

api-ne-nil : ◌≢◌ {A = String} "/api" ""
api-ne-nil e = let t : false ≡ true = (eq_iff "/api" "").1 e in cc

stripprefix_serve-append_example :
    stripprefix_serve "/api" (some (λ x. returned x)) (asks "/api/users") ≡ returned (asks "/users")
stripprefix_serve-append_example =
    stripprefix_serve-append "/api" "/users" (λ x. returned x) (asks "/api/users") api-ne-nil refl

strip_test :
    stripprefix_serve "/api" (some (λ x. returned x)) (asks "/api/users") ≡ returned (asks "/users")
unfolding stripprefix_serve trim_prefix
strip_test = refl

abbrev answers_500 : String → Handler
answers_500 msg x = returned (http_error msg 500 x)
