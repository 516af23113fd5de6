-- ===== src/Upload/Initializer/Examples.antt =====
-- An upload that is permitted: the service counts the tickets and lets the first one win.
use xhttp.Prelude.{◌≡◌, refl, String, true, false, none, some, [], ◌∷◌, ◌==◌}
use xhttp.Prelude.Int.{pos, negsuc}
use xhttp.Context.{cookie}
use xhttp.Http.{Request, ctx_value}
use xhttp.Session.Action.{State, ok, err, key_not_found}
use xhttp.Session.Cookie.{id as cookie_id, set_id as cookie_set_id, touch}
use xhttp.Session.Codec.{encode}
use xhttp.Prelude.Dict.{lookup, insert, remove}
use xhttp.Session.Handler.{
  Handler, Store, put, put_at, put_store, check_valid, renew, cache_put, put_cookie, set_id,
}
use xhttp.Session.Load.{loaded, generate, save, encode_cookie, send, apply_mods_off, bind_parent}
use xhttp.Session.Samples.{toy_codec, newcomer, visitor, sent_cookie}
use xhttp.Upload.Initializer.{Bottleneck, Init, serve_initializer}
use xhttp.Upload.Initializer.Laws.{HasTicket, serve_initializer-HasTicket}

abbrev service : Bottleneck String String
service = record {
  new_bottleneck = λ user maxage n b. (ok tt, b);
  new_ticket = λ user b. (ok user, b);
  exchange_ticket = λ user t b. (ok t, b);
  winning = λ t. t == "v7";
  marshal = λ t. ok t;
}

-- A store in which every entry reads "true".
abbrev agreeing : Store String
agreeing = record {
  get = λ i key b. (ok "true", b);
  put = λ i key value maxage b. (ok tt, b);
  delete = λ i key b. (ok tt, b);
  time_to_expiry = λ i key b. (err key_not_found, b);
}

abbrev user_session : Handler String
user_session = record {
  name = "s";
  server_only = false;
  context_key = 7;
  store = none;
  cache = none;
  uuidgen = λ b. (ok "u1", b);
}

abbrev upload_session : Handler String
upload_session = record user_session {
  name = "uploads";
  server_only = true;
  context_key = 8;
  store = some agreeing;
}

abbrev init : Init String String
init = record {
  handlers = record { uploader = user_session; session = upload_session };
  maxage = pos 60;
  max_concurrency = pos 1;
  bottleneck = some service;
  file_id = λ b. (ok "f1", b);
  text = λ e. "";
}

abbrev request : Request
request = record {
  method = "POST";
  scheme = "https";
  path = "/";
  header = [];
  cookies = [];
  ctx = (7, cookie sent_cookie) ∷ [];
}

abbrev before : State String
before = record {
  cookie = record newcomer { http_cookie = record newcomer.http_cookie { max_age = negsuc 0 } };
  parent_cookie = visitor;
  backends = "";
  res = record { header = []; sent = none; body = [] };
}

init_test : (serve_initializer toy_codec (λ r. "") (pos 100) init request before).0 ≡ ok true
unfolding serve_initializer ctx_value cookie_id lookup toy_codec generate save encode_cookie send
    apply_mods_off bind_parent put put_at put_store check_valid renew cache_put put_cookie set_id
    cookie_set_id insert touch encode remove
init_test = refl

serve_initializer-HasTicket_example :
    (loaded user_session request.ctx ≡ true)
    × HasTicket (some service) (cookie_id before.parent_cookie).0
serve_initializer-HasTicket_example =
    serve_initializer-HasTicket toy_codec (λ r. "") (pos 100) init request before init_test
