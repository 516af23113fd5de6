-- ===== src/Dynamux/Examples.antt =====
-- A link that is to last 60 units of time from the time 100.
use xhttp.Prelude.{◌≡◌, refl, true, false, none, [], ◌∷◌}
use xhttp.Prelude.Int.{pos, ◌+ℤ◌, ltb_ℤ}
use xhttp.Http.{Exchange, returned, http_error}
use xhttp.Dynamux.{Link, add_links, dynamux_serve}
use xhttp.Dynamux.Laws.{by_age, dynamux_serve-add_links}

abbrev asks : Exchange
asks = record {
  req = record {
    method = "GET";
    scheme = "http";
    path = "/l";
    header = [];
    cookies = [];
    ctx = [];
  };
  res = record { header = []; sent = none; body = [] };
}

abbrev link : Link
link = record {
  uid = "1";
  path = "/l";
  proxied = false;
  active = true;
  created_at = pos 100;
  max_age = pos 60;
  handler = none;
  fetch = λ x. returned x;
  redirect = λ x. returned x;
}

dynamux_serve-add_links_example :
    dynamux_serve (pos 110) (add_links (link ∷ []) []) asks
    ≡ by_age (ltb_ℤ (pos 110) (pos 100 +ℤ pos 60)) link asks
dynamux_serve-add_links_example = dynamux_serve-add_links (pos 110) link [] asks refl refl refl

too_young_test :
    by_age (ltb_ℤ (pos 110) (pos 100 +ℤ pos 60)) link asks
    ≡ returned (http_error "Error: Link has expired" 404 asks)
unfolding ◌+ℤ◌
too_young_test = refl
