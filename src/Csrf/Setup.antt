-- ===== src/Csrf/Setup.antt =====
-- handlers/csrf/csrf.go: NewHandler, CtxToken, and the function generateToken, over crypto/rand and
-- encoding/base64. `none` is a panic.
use xhttp.Prelude.{ℕ, String, false, Option, none, some, List, [], ◌∷◌}
use xhttp.Prelude.Int.{ℤ}
use xhttp.Context.{CtxValue, cookie}
use xhttp.Http.{Ctx, ctx_value}
use xhttp.Session.Action.{foreign, Result, ok, err, crash}
use xhttp.Session.Setup.{Session, new}

-- Handler, with its session as a value
pub record Settings (S : Type 0) : Type 0 where
  pub header : String
  pub session : Session S

module _ {S : Type 0} where
  -- The options; a nil option is called, and panics.
  abbrev pub opted : Option (Settings S → Settings S) → Settings S → Option (Settings S)
  opted none h = none
  opted (some opt) h = some (opt h)

  with_options : List (Option (Settings S → Settings S)) → Option (Settings S) → Option (Settings S)
  with_options options none = none
  with_options [] (some h) = some h
  with_options (opt ∷ options) (some h) = with_options options (opted opt h)

  abbrev pub for_scripts : Option (Session S) → Option (Settings S)
  for_scripts none = none
  for_scripts (some s) = some (record {
    header = "X-CSRF-TOKEN";
    session = record s {
      cookie = record s.cookie { http_cookie = record s.cookie.http_cookie { http_only = false } };
    };
  })

  -- NewHandler
  unfoldable pub new_handler :
      ℤ
      → ℕ
      → (S → Result String × S)
      → String
      → String
      → List (Option (Settings S → Settings S))
      → Option (Settings S)
  unfolding new with_options
  new_handler now key random name secret options =
      with_options options (for_scripts (new now key random name secret []))

  abbrev encoded : (String → String) → Result String × S → Result String × S
  encoded base64 (ok bytes, b) = (ok (base64 bytes), b)
  encoded base64 (err e, b) = (err e, b)
  encoded base64 (crash msg, b) = (crash msg, b)

  -- generateToken, where `random n` fills n bytes
  unfoldable pub make_token :
      (ℕ → S → Result String × S) → (String → String) → ℕ → S → Result String × S
  make_token random base64 length b = encoded base64 (random length b)

abbrev token_in : Option CtxValue → Result String
token_in (some (cookie c)) = ok c.value
token_in _ = err (foreign "CSRF: could not retrieve anticsrf token. Absent")

-- CtxToken
unfoldable pub ctx_token : {S : Type 0} → Settings S → Ctx → Result String
unfolding ctx_value
ctx_token h ctx = token_in (ctx_value h.session.handler.context_key ctx)
