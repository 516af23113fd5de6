-- ===== src/Session/Load/Examples.antt =====
-- The theorems on the session handler at a concrete handler, cookie and request.
use xhttp.Prelude.{◌≡◌, ◌≢◌, refl, String, true, false, none, some, List, [], ◌∷◌, eq_iff}
use xhttp.Prelude.Int.{pos, negsuc}
use xhttp.Prelude.Text.{split}
use xhttp.Context.{HttpCookie}
use xhttp.Http.{Request, Exchange, Outcome, returned, http_error, write, ctx_value}
use xhttp.Linker.{link, serve}
use xhttp.Session.Setup.{Session, enforcer}
use xhttp.Session.Setup.Laws.{enforcer-err}
use xhttp.Session.Codec.{decode, compute_hmac256, encode, encoded, sealed}
use xhttp.Prelude.Dict.{lookup, insert}
use xhttp.Session.RoundTrip.{IsAuthentic}
use xhttp.Session.Action.{State, ok, err, wraps, foreign, bad_session, key_not_found}
use xhttp.Session.Handler.{Handler, Store, Cache, get, delete}
use xhttp.Prelude.Int.{◌+ℤ◌}
use xhttp.Session.Cookie.{Cookie, session_validity_key, id as cookie_id, touch, set_id, set_cookie}
use xhttp.Session.Lifetime.{readable, deadline}
use xhttp.Session.Handler.{put}
use xhttp.Session.Handler.Kept.{get-put, found_or_missing}
use xhttp.Session.Handler.Delete.{get-delete-cached}
use xhttp.Session.Load.{
  loaded, request_cookie, load, generate, load_with, load_cookie, load_from, decode_cookie,
  apply_mods_off, check_store, serve_http,
}
use xhttp.Session.Load.Authentic.{load-IsAuthentic}
use xhttp.Session.Load.Generate.{generate-fails}
use xhttp.Session.Load.Continuity.{load-serve_http}
use xhttp.Session.Load.Continuity.Sent.{restarted, varied}
use xhttp.Session.RoundTrip.{all_valid}
use xhttp.Session.Samples.{toy_codec, valid, toy_codec-IsCodec, newcomer, sent_cookie}

-- A handler that keeps everything in the cookie; the backends are a list of texts.
abbrev client_side : Handler (List String)
client_side = record {
  name = "s";
  server_only = false;
  context_key = 7;
  store = none;
  cache = none;
  uuidgen = λ b. (ok "u1", b);
}

abbrev request : Request
request = record {
  method = "GET";
  scheme = "https";
  path = "/";
  header = [];
  cookies = sent_cookie ∷ [];
  ctx = [];
}

abbrev before : State (List String)
before = record {
  cookie = newcomer;
  parent_cookie = newcomer;
  backends = [];
  res = record { header = []; sent = none; body = [] };
}

abbrev no_info : Request → String
no_info r = ""

load_test : (load toy_codec no_info (pos 100) client_side none request before).0 ≡ ok tt
unfolding load loaded ctx_value load_with load_cookie load_from request_cookie decode_cookie decode
    split compute_hmac256 toy_codec apply_mods_off check_store
load_test = refl

load-IsAuthentic_example :
    (k : HttpCookie) × (request_cookie "s" request.cookies ≡ some k)
    × IsAuthentic toy_codec newcomer (decode toy_codec newcomer k).1 k.value
unfolding loaded ctx_value
load-IsAuthentic_example =
    load-IsAuthentic toy_codec no_info (pos 100) client_side request before refl refl load_test

-- A store that has nothing, and a cache that has the text "c" for every key.
abbrev empty_store : Store (List String)
empty_store = record {
  get = λ i key b. (err key_not_found, b);
  put = λ i key value maxage b. (ok tt, value ∷ b);
  delete = λ i key b. (ok tt, []);
  time_to_expiry = λ i key b. (err key_not_found, b);
}

abbrev full_cache : Cache (List String)
full_cache = record { get = λ i key b. (ok "c", b); put = λ i key value maxage b. (ok tt, b) }

abbrev with_store : Handler (List String)
with_store = record client_side { store = some empty_store }

abbrev with_cache : Handler (List String)
with_cache = record client_side { cache = some full_cache }

generate-fails_example :
    (generate toy_codec no_info (pos 100) with_store none request before).0
    ≡ err (wraps (foreign "Failed to generate new session.") (wraps bad_session key_not_found))
generate-fails_example =
    generate-fails toy_codec no_info (pos 100) with_store none request before empty_store "u1"
      key_not_found [] [] refl refl refl

cart-ne-id : ◌≢◌ {A = String} "cart" "id"
cart-ne-id e = let t : false ≡ true = (eq_iff "cart" "id").1 e in cc

get-delete-cached_example :
    (get (pos 120) with_cache "cart" (delete (pos 100) with_cache "cart" before).1).0 ≡ ok "c"
get-delete-cached_example =
    get-delete-cached (pos 100) (pos 120) with_cache full_cache "cart" "c" before refl refl refl
      cart-ne-id refl

cart-ne-validity : ◌≢◌ {A = String} "cart" session_validity_key
cart-ne-validity e = let t : false ≡ true = (eq_iff "cart" session_validity_key).1 e in cc

get-put_example :
    (s : State (List String)) × (put (pos 100) client_side "cart" "3" (pos 60) before ≡ (ok tt, s))
    × ((get (pos 120) client_side "cart" s).0
        ≡ found_or_missing (readable "3" (pos 120) (pos 60) (deadline (pos 0) (pos 100) (pos 60))))
get-put_example =
    get-put client_side (pos 100) (pos 120) "cart" "3" (pos 60) before (refl, refl, refl) cart-ne-id
      cart-ne-validity

readable_test :
    (found_or_missing (readable "3" (pos 120) (pos 60) (deadline (pos 0) (pos 100) (pos 60)))
      ≡ ok "3")
    × (found_or_missing (readable "3" (pos 170) (pos 60) (deadline (pos 0) (pos 100) (pos 60)))
        ≡ err key_not_found)
unfolding ◌+ℤ◌
readable_test = (refl, refl)

-- Two sessions, the second of which has no cookie in the request, for a handler that greets.
abbrev session : Session (List String)
session = record { handler = client_side; secret = "k"; cookie = newcomer; parent = none }

abbrev stranger : Exchange
stranger = record { req = record request { cookies = [] }; res = before.res }

abbrev greet : Exchange → Outcome
greet x = returned (record x { res = write "hello" x.res })

abbrev other_session : Session (List String)
other_session = record session { handler = record client_side { name = "other" } }

abbrev visit : Exchange
visit = record stranger { req = request }

enforcer-err_example :
    serve
      (link
        (enforcer toy_codec no_info (pos 100) (session ∷ other_session ∷ session ∷ []) [])
        greet)
      visit
    ≡ greet (http_error "Some session credentials are missing" 401 visit)
unfolding load loaded ctx_value load_with load_cookie load_from request_cookie decode_cookie decode
    split compute_hmac256 toy_codec apply_mods_off check_store
enforcer-err_example =
    enforcer-err toy_codec no_info (pos 100) (session ∷ []) (session ∷ []) other_session [] [] greet
      visit visit (wraps bad_session (foreign "http: named cookie not present")) before
      (_, refl, (refl, refl)) refl

-- A request that comes back with the cookie which the first one was sent.
abbrev short_lived : State (List String)
short_lived = record before {
  cookie = record newcomer { http_cookie = record newcomer.http_cookie { max_age = negsuc 0 } };
}

abbrev started : Cookie
started = record short_lived.cookie {
  values = ("id", record { value = "u1"; expiry = none }) ∷ [];
  apply_mods = true;
}

abbrev started_cookie : HttpCookie
started_cookie = record started.http_cookie { value = sealed toy_codec started "iu1" }

abbrev back : Request
back = record request { cookies = started_cookie ∷ [] }

touch_test : touch (pos 100) (restarted (pos 100) "u1" short_lived.cookie) ≡ some started
unfolding touch set_id lookup insert
touch_test = refl

encode_test : (encode toy_codec started).0 ≡ encoded started_cookie
unfolding encode toy_codec
encode_test = refl

load-serve_http_example :
    (s' t' : State (List String)) × (serve_http toy_codec no_info
        (pos 100)
        client_side
        none
        stranger.req
        short_lived
      ≡ (ok true, s'))
    × (s'.res
        ≡ set_cookie
            (toy_codec.cookie_text started_cookie)
            (set_cookie (toy_codec.cookie_text started_cookie) (varied short_lived.res)))
    × (load toy_codec no_info (pos 200) client_side none back before ≡ (ok tt, t'))
    × ((cookie_id t'.cookie).0 ≡ "u1")
unfolding loaded ctx_value request_cookie all_valid
load-serve_http_example =
    load-serve_http toy_codec no_info (pos 100) (pos 200) client_side stranger.req back short_lived
      before "u1" [] started started_cookie valid toy_codec-IsCodec (refl, refl, refl) (refl, refl)
      refl touch_test (refl, encode_test) (refl, refl) (refl, refl, refl)
