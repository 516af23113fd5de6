-- ===== src/Oauth.antt =====
-- handlers/oauth2/oauth2.go: Authentifier and CallbackHandler. crypto/rand, encoding/base64,
-- http.Redirect and golang.org/x/oauth2 are parameters. `T` is the type of the tokens.
pub mod Google
pub mod Laws
mod Examples
use xhttp.Prelude.{ℕ, String, Bool, true, false, Option, none, some, not, if◌then◌else◌, ◌==◌}
use xhttp.Prelude.Int.{ℤ, pos}
use xhttp.Http.{Response, error_response}
use xhttp.Session.Action.{
  Error, State, Result, ok, err, crash, Tried, done, failed, Action, pure, raise, ◌>>=◌, ◌>>◌,
  continue, attempt, tried, modify, on_backends, stored,
}
use xhttp.Session.Handler.{Handler, get, put, delete}

-- *oauth2.Config, with the options of the request. `random n` is what rand.Read fills n bytes with.
pub record Provider (S T : Type 0) : Type 0 where
  pub random : ℕ → S → Result String × S
  pub base64 : String → String
  pub auth_code_url : String → String
  pub exchange : String → S → Result T × S
  pub redirect : String → ℕ → Response → Response
  pub text : Error → String

-- 10*time.Minute, in nanoseconds
abbrev pub ten_minutes : ℤ
ten_minutes = pos 600000000000

module _ {S T : Type 0} (provider : Provider S T) where
  open provider use {random, base64, auth_code_url, exchange, redirect, text}

  -- generateNonce
  unfoldable pub generate_nonce : ℕ → Action S String
  generate_nonce length = do bytes ← on_backends (random length); pure (base64 bytes)

  abbrev pub respond : String → ℕ → Action S (Unit {0})
  respond msg code = modify (λ s. record s { res = error_response msg code s.res })

  abbrev pub redirected : String → Tried (Unit {0}) → Action S (Unit {0})
  redirected state (failed e) = respond (text e) 500
  redirected state (done _) =
      modify (λ s. record s { res = redirect (auth_code_url state) 307 s.res })

  abbrev pub with_nonce : ℤ → Handler S → Tried String → Action S (Unit {0})
  with_nonce now h (failed e) = respond (text e) 500
  with_nonce now h (done state) = do
    r ← attempt (put now h "oauthstate" state ten_minutes)
    redirected state r

  -- Authentifier.ServeHTTP
  unfoldable pub authentifier_serve : ℤ → Handler S → Action S (Unit {0})
  unfolding generate_nonce error_response
  authentifier_serve now h = do r ← attempt (generate_nonce 32); with_nonce now h r

  abbrev pub refuse : String → Action S (Option T)
  refuse msg = do respond msg 500; pure none

  abbrev pub with_token : Tried T → Action S (Option T)
  with_token (failed e) = refuse "XOAUTH2:unable to complete authentication. Token missing."
  with_token (done tok) = pure (some tok)

  abbrev pub exchanged : (String → String) → Action S (Option T)
  exchanged form = do r ← attempt (on_backends (exchange (form "code"))); with_token r

  -- The state in the session against the one in the form. The error of Delete is not looked at.
  abbrev pub with_state : ℤ → Handler S → (String → String) → Tried String → Action S (Option T)
  with_state now h form (failed e) = refuse "XOAUTH2:unable to recover authentication state"
  with_state now h form (done state) = do
    attempt (delete now h "oauthstate")
    if not (form "state" == state) then refuse "XOAUTH2:bad state" else exchanged form

  -- CallbackHandler.ServeHTTP, with the request's form. It answers the token that the next handler is
  -- called with.
  unfoldable pub callback_serve : ℤ → Handler S → (String → String) → Action S (Option T)
  unfolding error_response
  callback_serve now h form = do r ← attempt (get now h "oauthstate"); with_state now h form r
