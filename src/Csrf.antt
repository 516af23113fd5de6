-- ===== src/Csrf.antt =====
-- handlers/csrf/csrf.go: Handler, its generateToken and ServeHTTP. The random token is a parameter;
-- ServeHTTP answers whether the next handler is called, which gets the request as it came.
use xhttp.Prelude.{
  ℕ, String, Bool, true, false, Option, none, some, List, [], ◌∷◌, not, ◌||◌, if◌then◌else◌, ◌==◌,
}
use xhttp.Prelude.Dict.{lookup}
use xhttp.Prelude.Int.{ℤ, pos}
use xhttp.Context.{CtxValue, cookie, failure, role}
use xhttp.Http.{Request, ctx_value, add_header, error_response}
use xhttp.Session.Action.{
  State, Result, Tried, done, failed, Action, pure, raise, panic, ◌>>=◌, ◌>>◌, continue, attempt,
  tried, modify, on_backends, stored,
}
use xhttp.Session.Codec.{Codec}
use xhttp.Session.Handler.{Handler, put}
use xhttp.Session.Load.{load, save}
pub mod Laws
mod Setup
mod Examples

-- Handler: the name of the header and the session.
pub record Guard (S : Type 0) : Type 0 where
  pub header : String
  pub session : Handler S

-- The methods that are not checked
unfoldable pub is_safe : String → Bool
is_safe method = method == "GET" || method == "HEAD" || method == "OPTIONS"

module _ {S : Type 0} (codec : Codec) (info : Request → String) (now : ℤ)
    (random : S → Result String × S) where
  -- http.Error
  abbrev pub refuse : String → ℕ → Action S (Unit {0})
  refuse msg code = modify (λ s. record s { res = error_response msg code s.res })

  abbrev pub token_stored : Handler S → Tried (Unit {0}) → Action S (Unit {0})
  token_stored h (failed e) = do refuse "Storing new CSRF Token in session failed" 503; raise e
  token_stored h (done _) = save codec info now h

  abbrev pub token_made : Handler S → Tried String → Action S (Unit {0})
  token_made h (failed e) = do refuse "Generating anti-CSRF Token failed" 503; raise e
  token_made h (done tok) = do r ← attempt (put now h h.name tok (pos 0)); token_stored h r

  -- generateToken
  pub generate_token : Handler S → Action S (Unit {0})
  generate_token h = do tok ← attempt (on_backends random); token_made h tok

  abbrev pub after_token : String → ℕ → Tried (Unit {0}) → Action S Bool
  after_token msg code (failed e) = do refuse "Internal Server Error" 500; pure false
  after_token msg code (done _) = do refuse msg code; pure false

  -- A refusal that sends a new token.
  pub refuse_with_token : Handler S → String → ℕ → Action S Bool
  refuse_with_token h msg code = do r ← attempt (generate_token h); after_token msg code r

  pub check_cookie : Handler S → String → Option CtxValue → Action S Bool
  check_cookie h tok (some (cookie c)) =
      if not (tok == c.value)
      then refuse_with_token h "anti csrf header not valid" 400
      else pure true
  check_cookie h tok _ = refuse_with_token h "anti csrf session not valid" 400

  pub check_header : Handler S → Request → Option (List String) → Action S Bool
  check_header h req none = do refuse "Anti CSRF header is missing" 400; pure false
  check_header h req (some []) = panic "index out of range"
  check_header h req (some (tok ∷ toks)) = check_cookie h tok (ctx_value h.context_key req.ctx)

  abbrev pub after_safe : Tried (Unit {0}) → Action S Bool
  after_safe (failed e) = do refuse "Internal Server Error" 500; pure false
  after_safe (done _) = pure true

  pub serve_safe : Handler S → Tried (Unit {0}) → Action S Bool
  serve_safe h (done _) = pure true
  serve_safe h (failed e) = do r ← attempt (generate_token h); after_safe r

  pub serve_unsafe : Guard S → Request → Tried (Unit {0}) → Action S Bool
  serve_unsafe g req (failed e) =
      refuse_with_token g.session "Forbidden. anti-CSRF Token/header missing or invalid" 403
  serve_unsafe g req (done _) = check_header g.session req (lookup g.header req.header)

  -- ServeHTTP, up to the call of the next handler
  pub serve_http : Guard S → Option (Handler S) → Request → Action S Bool
  serve_http g parent req = do
    modify
        (λ s. record s { res = record s.res { header = add_header "Vary" "Cookie" s.res.header } })
    r ← attempt (load codec info now g.session parent req)
    if is_safe req.method then serve_safe g.session r else serve_unsafe g req r
