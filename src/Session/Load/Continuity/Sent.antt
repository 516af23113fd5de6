-- ===== src/Session/Load/Continuity/Sent.antt =====
-- What a session that is kept in the cookie alone sends, and what it loads.
use xhttp.Prelude.{◌≡◌, refl, String, true, false, Option, none, some, [], arith}
use xhttp.Prelude.Int.{ℤ}
use xhttp.Context.{HttpCookie}
use xhttp.Http.{Request, Response, add_header}
use xhttp.Session.Cookie.{
  Cookie, set_id as cookie_set_id, put as cookie_put, set as cookie_set, delete as cookie_delete,
  touch as cookie_touch, set_cookie,
}
use xhttp.Session.Codec.{Codec, encoded, decoded, encode, encode_json, decode}
use xhttp.Session.Action.{State, ok, err, bad_session, wraps, foreign}
use xhttp.Session.Handler.{Handler, set_id}
use xhttp.Session.Handler.Kept.{IsClientSide, put-validity}
use xhttp.Session.Load.{
  loaded, request_cookie, load, load_with, load_cookie, load_from, check_store, apply_mods_off,
  decode_cookie, encode_cookie, send, save, bind_parent, generate, serve_http,
}

module _ (codec : Codec) where
  encode_json-whole :
      (c : Cookie) (hc : HttpCookie) (o : Option String)
      → (encode_json codec c o).0 ≡ encoded hc
      → encode_json codec c o ≡ (encoded hc, record c { http_cookie = hc; apply_mods = true })
  unfolding encode_json
  encode_json-whole c hc none e = absurd (cc)
  encode_json-whole c hc (some jval) e = ground arith

  encode_json-again :
      (c : Cookie) (hc : HttpCookie) (o : Option String)
      → (encode_json codec c o).0 ≡ encoded hc
      → (encode_json codec (record c { http_cookie = hc; apply_mods = false }) o).0 ≡ encoded hc
  unfolding encode_json
  encode_json-again c hc none e = absurd (cc)
  encode_json-again c hc (some jval) e = ground arith

  encode-whole :
      (c : Cookie) (hc : HttpCookie)
      → (encode codec c).0 ≡ encoded hc
      → encode codec c ≡ (encoded hc, record c { http_cookie = hc; apply_mods = true })
  unfolding encode
  encode-whole c hc e = encode_json-whole c hc (codec.marshal c.values) e

  -- A cookie that was encoded is encoded to the same text again.
  encode-again :
      (c : Cookie) (hc : HttpCookie)
      → (encode codec c).0 ≡ encoded hc
      → (encode codec (record c { http_cookie = hc; apply_mods = false })).0 ≡ encoded hc
  unfolding encode
  encode-again c hc e = encode_json-again c hc (codec.marshal c.values) e

pub touch-secret :
    (now : ℤ) (c : Cookie) {c' : Cookie}
    → cookie_touch now c ≡ some c'
    → (c'.secret ≡ c.secret) × (c'.delimiter ≡ c.delimiter)
unfolding cookie_touch cookie_set cookie_put cookie_delete
touch-secret now c e = ground arith

-- The cookie after its entries are cleared and the id is set.
abbrev pub restarted : ℤ → String → Cookie → Cookie
restarted now i c = record (cookie_set_id now i (record c { values = [] })) { apply_mods = true }

-- What ServeHTTP writes first
abbrev pub varied : Response → Response
varied w = record w { header = add_header "Vary" "Cookie" w.header }

module _ {S : Type 0} (codec : Codec) (info : Request → String) (now : ℤ) (h : Handler S) where
  save-sent :
      (s : State S) (hc : HttpCookie)
      → h.server_only ≡ false
      → (encode codec s.cookie).0 ≡ encoded hc
      → save codec info now h s ≡ (
        ok tt,
        record s {
          cookie = record s.cookie { http_cookie = hc; apply_mods = false };
          res = set_cookie (codec.cookie_text hc) s.res;
        },
      )
  unfolding save encode_cookie send apply_mods_off
  save-sent s hc client e = rw (encode-whole codec s.cookie hc e, client) refl

  generate-sent :
      (s : State S) (i : String) (b : S) (c : Cookie) (hc : HttpCookie) (req : Request)
      → IsClientSide h
      → h.uuidgen s.backends ≡ (ok i, b)
      → cookie_touch now (restarted now i s.cookie) ≡ some c
      → (encode codec c).0 ≡ encoded hc
      → generate codec info now h none req s ≡ (
        ok tt,
        record s {
          cookie = record c { http_cookie = hc; apply_mods = false };
          backends = b;
          res = set_cookie (codec.cookie_text hc) s.res;
        },
      )
  unfolding generate set_id bind_parent
  generate-sent s i b c hc req (hs, ho, client) new touched e =
      let t : State S = record s { backends = b; cookie = restarted now i s.cookie } in
      rw
        (
          new,
          put-validity h now t c (hs, ho, client) touched,
          save-sent (record t { cookie = c }) hc client e,
        )
        refl

  load-stranger :
      (req : Request) (s : State S)
      → loaded h req.ctx ≡ false
      → request_cookie h.name req.cookies ≡ none
      → h.server_only ≡ false
      → load codec info now h none req s
        ≡ (err (wraps bad_session (foreign "http: named cookie not present")), s)
  unfolding load load_with load_cookie load_from
  load-stranger req s unloaded missing client = rw (unloaded, client, missing) refl

  -- A handler without a store loads what the cookie of its name says.
  pub load-returning :
      (req : Request) (t : State S) (hc : HttpCookie)
      → loaded h req.ctx ≡ false
      → request_cookie h.name req.cookies ≡ some hc
      → IsClientSide h
      → (decode codec t.cookie hc).0 ≡ decoded
      → load codec info now h none req t
        ≡ (ok tt, record t { cookie = record (decode codec t.cookie hc).1 { apply_mods = false } })
  unfolding load load_with load_cookie load_from decode_cookie check_store apply_mods_off
  load-returning req t hc unloaded found (hs, ha, client) good =
      rw (unloaded, client, found, good, hs) refl

  pub serve_http-sent :
      (req : Request) (s : State S) (i : String) (b : S) (c : Cookie) (hc : HttpCookie)
      → IsClientSide h
      → loaded h req.ctx ≡ false
      → request_cookie h.name req.cookies ≡ none
      → h.uuidgen s.backends ≡ (ok i, b)
      → cookie_touch now (restarted now i s.cookie) ≡ some c
      → (encode codec c).0 ≡ encoded hc
      → serve_http codec info now h none req s ≡ (
        ok true,
        record s {
          cookie = record c { http_cookie = hc; apply_mods = false };
          backends = b;
          res =
              set_cookie (codec.cookie_text hc) (set_cookie (codec.cookie_text hc) (varied s.res));
        },
      )
  unfolding serve_http
  serve_http-sent req s i b c hc (hs, ha, client) unloaded missing new touched e =
      let s1 : State S = record s { res = varied s.res } in
      let s2 : State S = record s {
        cookie = record c { http_cookie = hc; apply_mods = false };
        backends = b;
        res = set_cookie (codec.cookie_text hc) (varied s.res);
      } in
      rw
        (
          load-stranger req s1 unloaded missing client,
          generate-sent s1 i b c hc req (hs, ha, client) new touched e,
          save-sent s2 hc client (encode-again codec c hc e),
        )
        refl
