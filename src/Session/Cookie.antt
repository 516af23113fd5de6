-- ===== src/Session/Cookie.antt =====
-- handlers/session/sessioncookie.go: Cookie. The source holds the http.Cookie, the map and the flag
-- behind pointers, which every copy of a Cookie shares: a method on the value changes the object
-- that all see, and returns here the Cookie as it is afterwards. `none` is a panic.
use Prim.Native.Char.{Char}
use Prim.Native.String.{char_at}
use xhttp.Prelude.{
  String, Bool, true, false, Option, none, some, List, [], ◌∷◌, is_some, if◌then◌else◌, ◌==◌,
}
use xhttp.Prelude.Dict.{Dict, lookup, insert, remove}
use xhttp.Prelude.Int.{ℤ, pos, negsuc, ◌+ℤ◌, ◌-ℤ◌, ltb_ℤ, is_zero}
use xhttp.Context.{HttpCookie}
use xhttp.Http.{Response, Exchange, add_header}
use xhttp.Session.Value.{
  CookieValue, new_cookie_value, expired, try_retrieve, add_time_limit, with_options,
}

-- `apply_mods` is the flag ApplyMods; the delimiter is one character, as NewCookie sets it.
pub record Cookie : Type 0 where
  pub http_cookie : HttpCookie
  pub values : Dict CookieValue
  pub apply_mods : Bool
  pub secret : String
  pub delimiter : Char

-- session.go: sessionValidityKey
abbrev pub session_validity_key : String
session_validity_key = "sessionvalid?56dfh468s4hg54gsh"

abbrev pub id_text : Option CookieValue → String
id_text none = ""
id_text (some v) = v.value

-- Cookie.ID: a missing entry reads as the zero value.
unfoldable pub id : Cookie → String × Bool
id c = (id_text (lookup "id" c.values), true)

-- Cookie.SetID
unfoldable pub set_id : ℤ → String → Cookie → Cookie
unfolding new_cookie_value
set_id now i c = record c {
  values = insert "id" (new_cookie_value now i (pos 0) []) c.values;
  apply_mods = true;
}

-- Cookie.Delete
unfoldable pub delete : String → Cookie → Cookie
delete key c = record c { values = remove key c.values; apply_mods = true }

abbrev get_found : ℤ → String → Cookie → Option CookieValue → Option String × Cookie
get_found now key c none = (none, c)
get_found now key c (some v) =
    if expired now v then (none, delete key c) else (try_retrieve now v, c)

-- Cookie.Get
unfoldable pub get : ℤ → String → Cookie → Option String × Cookie
unfolding expired try_retrieve delete
get now key c = get_found now key c (lookup key c.values)

unfoldable pub put : String → CookieValue → Cookie → Cookie
put key v c = record c { values = insert key v c.values; apply_mods = true }

-- Cookie.Set
unfoldable pub set : ℤ → String → String → ℤ → Cookie → Option Cookie
unfolding put new_cookie_value add_time_limit delete
set now key val maxage c =
    if key == "id"
    then none
    else if ltb_ℤ (pos 0) maxage
    then some (
        put key
          (new_cookie_value now val c.http_cookie.max_age (add_time_limit (now +ℤ maxage) ∷ [])) c)
    else if is_zero maxage
    then some (put key (new_cookie_value now val (pos 0) []) c)
    else if is_some (lookup key c.values)
    then some (delete key c)
    else some c

pub data Ttl : Type 0 where
  missing crashed : Ttl
  remaining : ℤ → Ttl

abbrev ttl_found : ℤ → String → Cookie → Option CookieValue → Ttl × Cookie
ttl_found now key c none = (missing, c)
ttl_found now key c (some v) =
    if expired now v
    then (missing, delete key c)
    else elim v.expiry [ none ↦ (crashed, c) | some t ↦ (remaining (t -ℤ now), c) ]

-- Cookie.TimeToExpiry: `crashed` is the method Sub called through the nil pointer Expiry.
unfoldable pub time_to_expiry : ℤ → String → Cookie → Ttl × Cookie
unfolding expired delete
time_to_expiry now key c = ttl_found now key c (lookup key c.values)

-- Cookie.Touch
unfoldable pub touch : ℤ → Cookie → Option Cookie
unfolding set
touch now c = set now session_validity_key "true" c.http_cookie.max_age c

-- Cookie.Expire
unfoldable pub expire : ℤ → Cookie → Option Cookie
unfolding set new_cookie_value add_time_limit
expire now c =
    let gone = new_cookie_value now "" c.http_cookie.max_age (add_time_limit now ∷ []) in
    set now session_validity_key "false" (negsuc 0) (record c {
      values = insert "id" gone c.values;
      http_cookie = record c.http_cookie { max_age = negsuc 0 };
    })

-- DefaultCookieConfig
unfoldable pub default_cookie_config : Cookie → Cookie
default_cookie_config s = record s {
  http_cookie = record s.http_cookie { http_only = true; secure = true; path = "/" };
}

abbrev blank : String → String → ℤ → Cookie
blank name secret maxage = record {
  http_cookie = record {
    name = name;
    value = "";
    path = "";
    max_age = maxage;
    http_only = false;
    secure = false;
  };
  values = [];
  apply_mods = false;
  secret = secret;
  delimiter = char_at ":" 0;
}

-- NewCookie. The test of ID that follows the options cannot fail, since ID always answers true.
unfoldable pub new_cookie : ℤ → String → String → ℤ → List (Cookie → Cookie) → Option Cookie
unfolding touch default_cookie_config
new_cookie now name secret maxage options =
    if name == ""
    then none
    else if secret == ""
    then none
    else touch now (with_options options (default_cookie_config (blank name secret maxage)))

-- http.SetCookie, given the text of the cookie: an invalid cookie has none, and is dropped.
unfoldable pub set_cookie : String → Response → Response
set_cookie text w =
    if text == "" then w else record w { header = add_header "Set-Cookie" text w.header }

erased : (HttpCookie → String) → String → List HttpCookie → Response → Response
erased text name [] w = w
erased text name (k ∷ ks) w =
    erased text name ks
      (if k.name == name then set_cookie (text (record k { max_age = negsuc 0 })) w else w)

-- Cookie.Erase; `text` is http.Cookie's method String.
unfoldable pub erase : (HttpCookie → String) → Cookie → Exchange → Exchange
unfolding erased set_cookie
erase text c x = record x { res = erased text c.http_cookie.name x.req.cookies x.res }
