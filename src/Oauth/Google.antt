-- ===== src/Oauth/Google.antt =====
-- handlers/3rdpartylogin/google.go: GoogleProvider.ServeHTTP. jwt, encoding/json, the query of the
-- database and http.Redirect are parameters.
use xhttp.Prelude.{ℕ, String, Option, none, some, [], ◌∷◌}
use xhttp.Prelude.Dict.{Dict, lookup}
use xhttp.Prelude.Int.{ℤ, pos}
use xhttp.Http.{Request, Response, error_response}
use xhttp.Session.Action.{Result, Tried, done, failed, Action, ◌>>=◌, attempt, modify, on_backends}
use xhttp.Session.Codec.{Codec}
use xhttp.Session.Handler.{Handler, put}
use xhttp.Session.Load.{generate, save}

-- `T` is the type of the tokens, `V` of the claims' values, `U` of the users. `id_token` is the text
-- that Extra has; `parse` none where jwt.Parse has an error or no token, and else the claims, if they
-- are of the type MapClaims.
pub record Google (S T V U : Type 0) : Type 0 where
  pub id_token : T → Option String
  pub parse : String → Option (Option (Dict V))
  pub marshal_info : Dict (Option V) → Result String
  pub marshal_user : U → Result String
  pub query_user : Dict (Option V) → S → Result U × S
  pub redirect : String → ℕ → Response → Response
  pub new_user_url : String
  pub redirect_url : String

module _ {S T V U : Type 0} (g : Google S T V U) (codec : Codec) (info : Request → String)
    (now : ℤ) where
  abbrev pub refuse : String → Action S (Unit {0})
  refuse msg = modify (λ s. record s { res = error_response msg 500 s.res })

  abbrev pub redirect_to : String → Action S (Unit {0})
  redirect_to url = modify (λ s. record s { res = g.redirect url 307 s.res })

  abbrev pub or_refuse :
      {A : Type 0} → String → (A → Action S (Unit {0})) → Tried A → Action S (Unit {0})
  or_refuse msg rest (done a) = rest a
  or_refuse msg rest (failed e) = refuse msg

  -- `v, err := m; if err != nil { http.Error(…); return }`, and what follows
  abbrev pub trying :
      {A : Type 0} → Action S A → String → (A → Action S (Unit {0})) → Action S (Unit {0})
  trying m msg rest = do r ← attempt m; or_refuse msg rest r

  abbrev pub of_result : {A : Type 0} → Result A → Action S A
  of_result r s = (r, s)

  -- The user that the database has
  abbrev pub sign_in : Handler S → Tried U → Action S (Unit {0})
  sign_in h (failed e) = redirect_to g.new_user_url
  sign_in h (done user) =
      trying (of_result (g.marshal_user user)) "Unable to create authenticated session" (λ raw.
        trying (put now h "user" raw (pos 0)) "Unable to save authenticated user in session" (λ _.
          trying (save codec info now h) "Could not save authenticated user session."
            (λ _. redirect_to g.redirect_url)))

  -- A new session with the information of the provider
  unfoldable pub register :
      Handler S → Option (Handler S) → Request → Dict (Option V) → Action S (Unit {0})
  unfolding error_response
  register h parent req user_info =
      trying (generate codec info now h parent req) "Unable to create authenticated session" (λ _.
        trying (of_result (g.marshal_info user_info)) "Unable to create authenticated session"
          (λ raw.
            trying (put now h "user" raw (pos 0))
              "Unable to save authenticated user info in session"
              (λ _. attempt (on_backends (g.query_user user_info)) >>= sign_in h)))

  abbrev pub user_info : V → V → Dict V → Dict (Option V)
  user_info google_id email claims =
      ("googleid", some google_id)
      ∷ ("email", some email)
      ∷ ("name", lookup "name" claims)
      ∷ ("picture", lookup "picture" claims)
      ∷ []

  abbrev pub with_claims :
      Handler S → Option (Handler S) → Request → Dict V → Option V → Option V → Action S (Unit {0})
  with_claims h parent req claims (some google_id) (some email) =
      register h parent req (user_info google_id email claims)
  with_claims h parent req claims _ _ = refuse "Failed to sign new user. id token incomplete."

  abbrev pub with_parsed :
      Handler S → Option (Handler S) → Request → Option (Option (Dict V)) → Action S (Unit {0})
  with_parsed h parent req none = refuse "Failed to sign new user. id token invalid."
  with_parsed h parent req (some none) = refuse "Failed to sign new user. id token invalid."
  with_parsed h parent req (some (some claims)) =
      with_claims h parent req claims (lookup "sub" claims) (lookup "email" claims)

  abbrev pub with_id_token :
      Handler S → Option (Handler S) → Request → Option String → Action S (Unit {0})
  with_id_token h parent req none = refuse "Failed to sign new user. id token missing."
  with_id_token h parent req (some text) = with_parsed h parent req (g.parse text)

  -- GoogleProvider.ServeHTTP, with the token in the context of the request
  unfoldable pub google_serve :
      Handler S → Option (Handler S) → Request → Option T → Action S (Unit {0})
  unfolding error_response register lookup
  google_serve h parent req none = refuse "Failed to sign new user. Token missing."
  google_serve h parent req (some token) = with_id_token h parent req (g.id_token token)
