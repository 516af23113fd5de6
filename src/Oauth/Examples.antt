-- ===== src/Oauth/Examples.antt =====
-- A login with the session in the cookie, and with a cache beside it.
use xhttp.Prelude.{refl, String, false, Option, none, some, List, [], ◌∷◌, if◌then◌else◌, ◌==◌}
use xhttp.Prelude.Int.{pos}
use xhttp.Session.Action.{State, ok}
use xhttp.Session.Cookie.{touch as cookie_touch}
use xhttp.Session.Handler.{Handler, Cache, id, get, get_at, delete, delete_at, cache_delete, touch}
use xhttp.Session.Samples.{newcomer}
use xhttp.Oauth.{Provider, callback_serve}
use xhttp.Oauth.Laws.{Confirms, callback_serve-Confirms}

abbrev provider : Provider (List String) String
provider = record {
  random = λ n b. (ok "r", b);
  base64 = λ s. s;
  auth_code_url = λ s. s;
  exchange = λ code b. (ok "token", b);
  redirect = λ url code w. w;
  text = λ e. "";
}

-- A cache that has the state.
abbrev cache : Cache (List String)
cache = record { get = λ i k b. (ok "st", b); put = λ i k v age b. (ok tt, b) }

abbrev handler : Option (Cache (List String)) → Handler (List String)
handler c = record {
  name = "s";
  server_only = false;
  context_key = 7;
  store = none;
  cache = c;
  uuidgen = λ b. (ok "u1", b);
}

abbrev form : String → String
form k = if k == "state" then "st" else "c"

abbrev before : State (List String)
before = record {
  cookie = record newcomer { values = ("oauthstate", record { value = "st"; expiry = none }) ∷ [] };
  parent_cookie = newcomer;
  backends = [];
  res = record { header = []; sent = none; body = [] };
}

callback_serve-Confirms_example : Confirms provider form (ok "st") "token"
unfolding callback_serve get id get_at delete delete_at cache_delete touch cookie_touch
callback_serve-Confirms_example =
    callback_serve-Confirms provider (pos 100) (handler (some cache)) form before "token" refl
