-- ===== src/Upload/Serve.antt =====
-- handlers/chunkedupload/handler.go: ParseUpload and ServeHTTP of Handler. ServeHTTP answers the form
-- that the next handler is called with, or none where it answers the request itself.
use text.Mathlib.Text.{starts_with}
use xhttp.Prelude.{
  ℕ, zero, String, Bool, true, false, Option, none, some, List, [], ◌∷◌, not, ◌||◌, if◌then◌else◌,
}
use xhttp.Prelude.Dict.{Dict, lookup}
use xhttp.Prelude.Int.{ℤ}
use xhttp.Http.{Request, error_response, get_header}
use xhttp.Session.Action.{Error, wraps, foreign, Result}
use xhttp.Session.Codec.{Codec}
use xhttp.Session.Handler.{Handler, id}
use xhttp.Session.Load.{load}
use xhttp.Upload.Form.{Field, new_canceler}
use xhttp.Upload.Parts.{
  Stream, Media, Upload, Exit, go, stop, panics, Parse, pure, return_error, ◌>>=◌, ◌>>◌, modify,
  attempt, or_return, parsing_failed, uploading_failed, server_form_invalid, client_form_invalid,
  too_large, bad_content_type, no_boundary,
}
use xhttp.Upload.Parse.{parts}
use xhttp.Upload.Files.{Config, process}

-- Handler: its session, its path and its generator of identifiers.
pub record Uploader (S : Type 0) : Type 0 where
  pub session : Handler S
  pub parent : Option (Handler S)
  pub file_id : S → Result String × S

-- How errors compare with `==` and what Error answers for them.
pub record Errors : Type 0 where
  pub same : Error → Error → Bool
  pub text : Error → String

-- The switch of ServeHTTP on an error
unfoldable pub refusal : Errors → Error → String × ℕ
refusal errors e =
    if errors.same e no_boundary
      || errors.same e bad_content_type
      || errors.same e client_form_invalid
    then ("Expecting correct form-data", 400)
    else if errors.same e parsing_failed
        || errors.same e uploading_failed
        || errors.same e server_form_invalid
    then ("Server was unable to proceed with request processing", 500)
    else if errors.same e too_large
    then (errors.text e, 413)
    else (errors.text e, 500)

module _ {S D : Type 0} where
  abbrev pub fresh_canceler : Parse S D (Unit {0})
  fresh_canceler = modify (λ u. record u { cancels = new_canceler })

  abbrev pub or_no_boundary : Option String → Parse S D String
  or_no_boundary none = return_error no_boundary
  or_no_boundary (some b) = pure b

  abbrev pub not_multipart : {A : Type 0} → Parse S D A
  not_multipart = return_error (foreign "Content-Type error : expecting a multipart message")

  -- The request must be a multipart message with a boundary, which is answered.
  abbrev pub boundary_of : (String × Dict String) × Bool → Parse S D String
  boundary_of ((ct, params), false) = not_multipart
  boundary_of ((ct, params), true) =
      if not (starts_with ct "multipart/")
      then not_multipart
      else or_no_boundary (lookup "boundary" params)

  abbrev pub form_given : List (Field S D) → Parse S D (Unit {0})
  form_given [] = return_error server_form_invalid
  form_given (f ∷ fs) = pure tt

  -- `if len(f) == 0`
  abbrev pub expect_form : Parse S D (Unit {0})
  expect_form u = form_given u.form u

  -- http.Error
  abbrev pub respond : String × ℕ → Upload S D → Upload S D
  respond (msg, code) u = record u {
    session = record u.session { res = error_response msg code u.session.res };
  }

  -- ServeHTTP after ParseUpload; a return of nil in place of an error goes with a nil form.
  unfoldable pub answer :
      Errors → Exit (Unit {0}) × Upload S D → Exit (Option (List (Field S D))) × Upload S D
  unfolding refusal error_response
  answer errors (go x, u) = (go (some u.form), u)
  answer errors (stop none, u) = (go (some []), u)
  answer errors (stop (some e), u) = (go none, respond (refusal errors e) u)
  answer errors (panics msg, u) = (panics msg, u)

-- `request_parts` are the parts of the request's body, by the boundary.
module _ {S D : Type 0} (media : Media D) (codec : Codec) (info : Request → String) (now : ℤ)
    (request_parts : String → Stream D) where
  -- Handler.ParseUpload
  unfoldable pub parse_upload : Uploader S → Request → Parse S D (Unit {0})
  unfolding parts process get_header
  parse_upload h req = do
    fresh_canceler
    r ← attempt (load codec info now h.session h.parent req)
    or_return (λ e. wraps parsing_failed (wraps (foreign "Unable to load session") e)) r
    r' ← attempt (id now h.session)
    uploader ← or_return (λ e. wraps parsing_failed (wraps (foreign "No session ID found.") e)) r'
    boundary ← boundary_of (media.parse_media (get_header "Content-Type" req.header))
    expect_form
    let config : Config S = record { uploader_id = uploader; file_id = h.file_id }
    parts media (process media config) zero (request_parts boundary)

  -- Handler.ServeHTTP, up to the call of the next handler
  unfoldable pub serve_http :
      Errors → Uploader S → Request → Upload S D → Exit (Option (List (Field S D))) × Upload S D
  unfolding parse_upload answer
  serve_http errors h req u = answer errors (parse_upload h req u)
