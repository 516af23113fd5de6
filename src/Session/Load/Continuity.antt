-- ===== src/Session/Load/Continuity.antt =====
-- A session that is kept in the cookie alone, from the request that starts it to a later one that
-- brings the cookie back.
pub mod Sent
use Prim.Native.Char.{code}
use xhttp.Prelude.{
  ◌≡◌, refl, sym, ◌∙◌, ap, String, Bool, true, false, Option, none, some, [], arith,
}
use xhttp.Prelude.Dict.{lookup, insert}
use xhttp.Prelude.Int.{ℤ}
use xhttp.Context.{HttpCookie}
use xhttp.Http.{Request, Response, add_header}
use xhttp.Session.Value.{new_cookie_value}
use xhttp.Session.Cookie.{
  Cookie, session_validity_key, id as cookie_id, id_text, set_id as cookie_set_id,
  put as cookie_put, set as cookie_set, delete as cookie_delete, touch as cookie_touch, set_cookie,
}
use xhttp.Session.Codec.{Codec, encoded, decoded, encode, encode_json, decode}
use xhttp.Session.RoundTrip.{IsCodec, decode-encode, overlaid, all_valid}
use xhttp.Session.Lifetime.{lookup_id-touch}
use xhttp.Session.Action.{State, ok, err, bad_session, wraps, foreign}
use xhttp.Session.Handler.{Handler, set_id}
use xhttp.Session.Handler.Kept.{IsClientSide, put-validity}
use xhttp.Session.Load.{
  loaded, as_parsed, request_cookie, load, load_with, load_cookie, load_from, check_store,
  apply_mods_off, decode_cookie, encode_cookie, send, save, bind_parent, generate, serve_http,
}
use xhttp.Session.Load.Continuity.Sent.{
  restarted, varied, touch-secret, load-returning, serve_http-sent,
}

id_text-overlaid :
    (c c' : Cookie) (i : String)
    → lookup "id" c.values ≡ some (record { value = i; expiry = none })
    → id_text (overlaid "id" c.values c'.values) ≡ i
id_text-overlaid c c' i e =
    ap (λ o. id_text (elim o [ none ↦ lookup "id" c'.values | some v ↦ some v ])) e

lookup_id-restarted :
    (now : ℤ) (i : String) (c : Cookie)
    → lookup "id" (restarted now i c).values ≡ some (record { value = i; expiry = none })
unfolding cookie_set_id new_cookie_value lookup insert
lookup_id-restarted now i c = refl

-- A session that is kept in the cookie alone goes on, if the cookie can be encoded and its keys and
-- values, the new id among them, are valid UTF-8: a request without its cookie is passed on with a
-- new session, whose cookie the response sets, twice; and a later request that brings the name and
-- the value of this cookie is loaded, by any handler's cookie with the same secret and the colon as
-- delimiter, with the same id.
pub load-serve_http :
    {S : Type 0} (codec : Codec) (info : Request → String) (now later : ℤ) (h : Handler S)
    (req req' : Request) (s t : State S) (i : String) (b : S) (c : Cookie) (hc : HttpCookie)
    (valid : String → Bool)
    → IsCodec codec valid
    → IsClientSide h
    → (loaded h req.ctx ≡ false) × (request_cookie h.name req.cookies ≡ none)
    → h.uuidgen s.backends ≡ (ok i, b)
    → cookie_touch now (restarted now i s.cookie) ≡ some c
    → (all_valid valid c.values ≡ true) × ((encode codec c).0 ≡ encoded hc)
    → (loaded h req'.ctx ≡ false) × (request_cookie h.name req'.cookies ≡ some (as_parsed hc))
    → (t.cookie.secret ≡ s.cookie.secret)
      × (t.cookie.delimiter ≡ s.cookie.delimiter)
      × (code s.cookie.delimiter ≡ b':')
    → (s' t' : State S) × (serve_http codec info now h none req s ≡ (ok true, s'))
      × (s'.res
          ≡ set_cookie (codec.cookie_text hc) (set_cookie (codec.cookie_text hc) (varied s.res)))
      × (load codec info later h none req' t ≡ (ok tt, t'))
      × ((cookie_id t'.cookie).0 ≡ i)
unfolding cookie_id
load-serve_http codec info now later h req req' s t i b c hc valid laws client (unloaded, missing)
      new touched (text, e) (unloaded', found) (secret, delimiter, colon) =
    let (secret', delimiter') = touch-secret now (restarted now i s.cookie) touched in
    let secret_kept : c.secret ≡ s.cookie.secret = (unfold cookie_set_id in secret') in
    let delimiter_kept : c.delimiter ≡ s.cookie.delimiter = (unfold cookie_set_id in delimiter') in
    let (good, entries) =
      decode-encode codec valid laws c t.cookie hc (secret ∙ sym secret_kept)
        (ap code delimiter_kept ∙ colon) (delimiter ∙ sym delimiter_kept) text e in
    let parsed : decode codec t.cookie (as_parsed hc) ≡ decode codec t.cookie hc =
      unfold decode in refl in
    let has_id : lookup "id" c.values ≡ some (record { value = i; expiry = none }) =
      lookup_id-touch now (restarted now i s.cookie) touched ∙ lookup_id-restarted now i s.cookie in
    (
      record s {
        cookie = record c { http_cookie = hc; apply_mods = false };
        backends = b;
        res = set_cookie (codec.cookie_text hc) (set_cookie (codec.cookie_text hc) (varied s.res));
      },
      record t { cookie = record (decode codec t.cookie (as_parsed hc)).1 { apply_mods = false } },
      serve_http-sent codec info now h req s i b c hc client unloaded missing new touched e,
      refl,
      load-returning codec info later h req' t (as_parsed hc) unloaded' found client
          (ap (λ d. d.0) parsed ∙ good),
      ap (λ d. id_text (lookup "id" d.1.values)) parsed
          ∙ ap id_text (entries "id")
          ∙ id_text-overlaid c t.cookie i has_id,
    )
