-- ===== src/Session/Load/Child/Examples.antt =====
-- A session on the server that is loaded with its parent.
use xhttp.Prelude.{◌≡◌, refl, String, true, none, some, [], ◌∷◌, ◌==◌, if◌then◌else◌}
use xhttp.Prelude.Int.{pos}
use xhttp.Prelude.Dict.{lookup}
use xhttp.Context.{cookie}
use xhttp.Http.{Request, ctx_value}
use xhttp.Session.Action.{State, ok, err, key_not_found}
use xhttp.Session.Codec.{encode}
use xhttp.Session.Cookie.{id as cookie_id}
use xhttp.Session.Handler.{
  Handler, Store, id, get, get_at, get_uncached, get_store, check_valid, touch,
}
use xhttp.Session.Load.{
  loaded, load, load_with, check_parent, save, encode_cookie, send, apply_mods_off,
}
use xhttp.Session.Load.Child.{IsBound, first_read, load-IsBound}
use xhttp.Session.Samples.{toy_codec, visitor, sent_cookie}

-- A store that names the session v7 as the parent, and has the text "true" for all else.
abbrev family : Store String
family = record {
  get = λ i key b. (ok (if key == "c/s/id" then "v7" else "true"), b);
  put = λ i key value maxage b. (ok tt, b);
  delete = λ i key b. (ok tt, b);
  time_to_expiry = λ i key b. (err key_not_found, b);
}

abbrev parent : Handler String
parent = record {
  name = "s";
  server_only = true;
  context_key = 7;
  store = some family;
  cache = none;
  uuidgen = λ b. (ok "u1", b);
}

abbrev child : Handler String
child = record parent { name = "c"; context_key = 8 }

abbrev request : Request
request = record {
  method = "GET";
  scheme = "https";
  path = "/";
  header = [];
  cookies = [];
  ctx = (7, cookie sent_cookie) ∷ [];
}

abbrev before : State String
before = record {
  cookie = record visitor { values = ("id", record { value = "c1"; expiry = none }) ∷ [] };
  parent_cookie = visitor;
  backends = "";
  res = record { header = []; sent = none; body = [] };
}

load_test : (load toy_codec (λ r. "") (pos 100) child (some parent) request before).0 ≡ ok tt
unfolding load loaded ctx_value load_with check_parent get get_at get_uncached get_store check_valid
    touch save encode_cookie send apply_mods_off encode toy_codec cookie_id lookup id
load_test = refl

load-IsBound_example :
    (loaded parent request.ctx ≡ true)
    × (t : State String) × (first_read toy_codec (λ r. "") (pos 100) child parent request before
        ≡ (ok tt, t))
    × IsBound toy_codec (λ r. "") (pos 100) child parent (cookie_id before.parent_cookie).0 t
unfolding loaded ctx_value
load-IsBound_example =
    load-IsBound toy_codec (λ r. "") (pos 100) child parent request before refl load_test
