-- ===== src/Session/Load.antt =====
-- handlers/session/session.go: Loaded, loadCookie, Load, Save, Generate, LoadServerOnly,
-- GenerateServerOnly, Revoke and ServeHTTP. The source stores the session cookie in the context of
-- `req = req.WithContext(…)`, which rebinds its own variable: the caller's request keeps its context,
-- so that these functions return no request.
pub mod Authentic
pub mod Child
pub mod Continuity
pub mod Generate
mod Examples
use Prim.Native.String.{◌++◌}
use xhttp.Prelude.{
  ℕ, String, Bool, true, false, Option, none, some, List, [], ◌∷◌, not, if◌then◌else◌, ◌==◌,
  is_some, ◌||◌, ◌&&◌,
}
use xhttp.Prelude.Int.{ℤ, pos}
use xhttp.Context.{HttpCookie, CtxValue, cookie, failure, role}
use xhttp.Http.{Ctx, ctx_value, Request, Response, add_header, error_response}
use xhttp.Session.Cookie.{Cookie, session_validity_key, set_cookie, expire as cookie_expire}
use xhttp.Session.Codec.{
  Codec, Encoded, encoded, unserializable, too_big, Decoded, decoded, tampered, bad_signature,
  undecodable, unreadable, encode, decode,
}
use xhttp.Session.Action.{
  Error, no_id, bad_session, bad_cookie, parent_invalid, wraps, foreign, State, Result, ok, err,
  Tried, done, failed, Action, pure, raise, ◌>>=◌, ◌>>◌, continue, tried, attempt, gets, modify,
  stored, on_backends, changed, on_cookie, on_parent,
}
use xhttp.Session.Handler.{Handler, Store, id, set_id, get, put, delete}

abbrev is_cookie : Option CtxValue → Bool
is_cookie (some (cookie c)) = true
is_cookie _ = false

-- Loaded
unfoldable pub loaded : {S : Type 0} → Handler S → Ctx → Bool
loaded h ctx = is_cookie (ctx_value h.context_key ctx)

-- What a request says of a cookie: the name and the value, and no attribute.
abbrev pub as_parsed : HttpCookie → HttpCookie
as_parsed k = record {
  name = k.name;
  value = k.value;
  path = "";
  max_age = pos 0;
  http_only = false;
  secure = false;
}

-- req.Cookie(name)
unfoldable pub request_cookie : String → List HttpCookie → Option HttpCookie
request_cookie name [] = none
request_cookie name (k ∷ ks) = if k.name == name then some (as_parsed k) else request_cookie name ks

module _ {S : Type 0} (codec : Codec) (info : Request → String) (now : ℤ) where
  abbrev or_wrap : {A : Type 0} → Error → Tried A → Action S A
  or_wrap e (done a) = pure a
  or_wrap e (failed f) = raise (wraps e f)

  -- `if err != nil { return e.Wraps(err) }` after `m`
  abbrev pub wrapping : {A : Type 0} → Error → Action S A → Action S A
  wrapping e m = do r ← attempt m; or_wrap e r

  unfoldable pub apply_mods_off : Action S (Unit {0})
  apply_mods_off = modify (λ s. record s { cookie = record s.cookie { apply_mods = false } })

  abbrev require : Bool → Error → Action S (Unit {0})
  require true e = pure tt
  require false e = raise e

  decode_cookie : HttpCookie → Action S Decoded
  decode_cookie k s = let (d, c) = decode codec s.cookie k in (ok d, record s { cookie = c })

  abbrev accept : Decoded → Action S (Unit {0})
  accept decoded = pure tt
  accept _ = raise (wraps bad_cookie (foreign "cookie"))

  check_store : Handler S → Option (Store S) → Action S (Unit {0})
  check_store h none = pure tt
  check_store h (some st) = do wrapping bad_session (get now h session_validity_key); pure tt

  load_from : Handler S → Option HttpCookie → Action S (Unit {0})
  load_from h none = raise (wraps bad_session (foreign "http: named cookie not present"))
  load_from h (some k) = do d ← decode_cookie k; accept d; apply_mods_off; check_store h h.store

  -- loadCookie
  pub load_cookie : Handler S → Request → Action S (Unit {0})
  load_cookie h req = load_from h (request_cookie h.name req.cookies)

  unfoldable pub encode_cookie : Action S Encoded
  encode_cookie s = let (e, c) = encode codec s.cookie in (ok e, record s { cookie = c })

  abbrev or_unencoded : Encoded → Action S HttpCookie
  or_unencoded (encoded hc) = pure hc
  or_unencoded unserializable = raise (foreign "Encoding failure for session cookie.")
  or_unencoded too_big = raise (foreign "ERR: JSON encoded value too big for cookie.")

  unfoldable pub send : Handler S → HttpCookie → Action S (Unit {0})
  send h hc =
      if h.server_only
      then pure tt
      else modify (λ s. record s { res = set_cookie (codec.cookie_text hc) s.res })

  -- Save
  unfoldable pub save : Handler S → Action S (Unit {0})
  save h = do e ← encode_cookie; hc ← or_unencoded e; send h hc; apply_mods_off

  -- The checks of a session against its loaded parent, from the parent's id on.
  check_parent : Handler S → Handler S → String → String → Error → Action S (Unit {0})
  check_parent h p pid i missing_id = do
    wrapping bad_session (get now h session_validity_key)
    psid ← wrapping missing_id (get now h (p.name ++ "/id"))
    require (pid == psid) (wraps parent_invalid (foreign "session parent id is not matching"))
    wrapping bad_session (on_parent (get now p (h.name ++ "/" ++ i)))
    pure tt

  pub load_with : Handler S → Option (Handler S) → Request → Action S (Unit {0})
  load_with h (some p) req = do
    require (loaded p req.ctx) parent_invalid
    pid ← on_parent (id now p)
    if h.server_only then pure tt else load_cookie h req
    i ← id now h
    check_parent h p pid i bad_session
    save h
  load_with h none req =
      if not h.server_only
      then load_cookie h req
      else do wrapping bad_session (get now h session_validity_key); save h

  -- Load
  unfoldable pub load : Handler S → Option (Handler S) → Request → Action S (Unit {0})
  load h parent req = if loaded h req.ctx then pure tt else load_with h parent req

  -- What Generate and GenerateServerOnly store about the parent.
  unfoldable pub bind_parent :
      Handler S → Option (Handler S) → Request → String → Action S (Unit {0})
  bind_parent h none req i = pure tt
  bind_parent h (some p) req i = do
    require (loaded p req.ctx) parent_invalid
    put now h (p.name ++ "/id") i (pos 0)
    attempt (on_parent (put now p (h.name ++ "/" ++ i) (info req) (pos 0)))
    pure tt

  -- Generate
  unfoldable pub generate : Handler S → Option (Handler S) → Request → Action S (Unit {0})
  generate h parent req = do
    i ← on_backends h.uuidgen
    modify (λ s. record s { cookie = record s.cookie { values = [] } })
    set_id now h i
    age ← gets (λ s. s.cookie.http_cookie.max_age)
    wrapping (foreign "Failed to generate new session.") (put now h session_validity_key "true" age)
    bind_parent h parent req i
    save h

  -- The last lines of LoadServerOnly and GenerateServerOnly.
  seal : Action S (Unit {0})
  seal = do e ← encode_cookie; or_unencoded e; apply_mods_off

  load_id : Handler S → Option (Handler S) → Request → String → Action S (Unit {0})
  load_id h (some p) req i = do
    set_id now h i
    require (loaded p req.ctx) parent_invalid
    pid ← on_parent (id now p)
    check_parent h p pid i parent_invalid
    seal
  load_id h none req i = do
    set_id now h i
    wrapping bad_session (get now h session_validity_key)
    seal

  -- LoadServerOnly
  pub load_server_only : Request → String → Handler S → Option (Handler S) → Action S (Unit {0})
  load_server_only req i h parent =
      if not h.server_only || not (is_some h.store)
      then raise (foreign "Session Handler parameters are incorrect")
      else do
        sid ← id now h
        if loaded h req.ctx && sid == i then pure tt else load_id h parent req i

  abbrev exists_already : Tried (Unit {0}) → Action S (Unit {0})
  exists_already (done _) = pure tt
  exists_already (failed e) =
      raise (wraps (foreign "Session does already exist but could not be loaded") e)

  abbrev or_new :
      Handler S → Option (Handler S) → Request → String → Tried String → Action S (Unit {0})
  or_new h parent req i (done _) = do
    r ← attempt (load_server_only req i h parent)
    exists_already r
  or_new h parent req i (failed _) = do
    age ← gets (λ s. s.cookie.http_cookie.max_age)
    put now h session_validity_key "true" age
    bind_parent h parent req i
    seal

  -- GenerateServerOnly
  pub generate_server_only : Request → String → Handler S → Option (Handler S) → Action S (Unit {0})
  generate_server_only req i h parent = do
    set_id now h i
    r ← attempt (get now h session_validity_key)
    or_new h parent req i r

  revoke_parent : Handler S → Option (Handler S) → String → Action S (Unit {0})
  revoke_parent h none i = pure tt
  revoke_parent h (some p) i = do
    pid ←
        wrapping (foreign "Unable to recover parent session id for revocation.")
          (get now h (p.name ++ "/id"))
    on_parent (set_id now p pid)
    attempt (on_parent (delete now p (h.name ++ "/" ++ i)))
    pure tt

  -- Revoke
  pub revoke : Handler S → Option (Handler S) → Action S (Unit {0})
  revoke h parent = do
    i ← id now h
    on_cookie (cookie_expire now)
    delete now h session_validity_key
    revoke_parent h parent i

  -- http.Error
  abbrev pub respond_error : String → ℕ → Action S (Unit {0})
  respond_error msg code = modify (λ s. record s { res = error_response msg code s.res })

  abbrev or_generate :
      Handler S → Option (Handler S) → Request → Tried (Unit {0}) → Action S (Tried (Unit {0}))
  or_generate h parent req (done _) = pure (done tt)
  or_generate h parent req (failed _) = attempt (generate h parent req)

  abbrev finish : Tried (Unit {0}) → Action S Bool
  finish (done _) = pure true
  finish (failed _) = do respond_error "Unable to set session cookie" 500; pure false

  abbrev save_at : Handler S → Tried (Unit {0}) → Action S Bool
  save_at h (done _) = do r ← attempt (save h); finish r
  save_at h (failed _) = do respond_error "Unable to generate session" 500; pure false

  -- ServeHTTP up to the call of the next handler; the answer is whether that call is made. It is made
  -- with the request as it came.
  pub serve_http : Handler S → Option (Handler S) → Request → Action S Bool
  serve_http h parent req = do
    modify
        (λ s. record s { res = record s.res { header = add_header "Vary" "Cookie" s.res.header } })
    r ← attempt (load h parent req)
    r' ← or_generate h parent req r
    save_at h r'
