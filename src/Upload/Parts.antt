-- ===== src/Upload/Parts.antt =====
-- What the upload handlers take from mime, mime/multipart and bufio, and their state: the form, which
-- all requests share, the rollbacks so far, and the session.
use xhttp.Prelude.{String, Bool, Option, some, List}
use xhttp.Prelude.Dict.{Dict}
use xhttp.Prelude.Int.{ℤ}
use xhttp.Session.Action.{
  Error, foreign, State, Action, Result, ok, err, crash, Tried, done, failed,
}
use xhttp.Upload.Form.{Field, Cancel, add_cancel}

-- A part: its headers Content-Type and Content-Disposition, its names, and its data.
pub record Part (D : Type 0) : Type 0 where
  pub content_type : String
  pub disposition : String
  pub form_name : String
  pub file_name : String
  pub body : D

-- The answers of NextPart, one after the other; after the end it answers io.EOF. Beside a part and the
-- parts after it stand what Peek shows where it reads past the part's own reader from the one below,
-- by the number of bytes asked for, and the parts that are then left.
pub data Stream (D : Type 0) : Type 0 where
  eof : Stream D
  broken : String → Stream D
  part : Part D → Stream D → (ℤ → String) → (ℤ → Stream D) → Stream D

-- `parse_media` is mime.ParseMediaType with whether it succeeded; `peek n b` what Peek of a new
-- bufio.Reader shows, and what is left in the part, since that reader has read ahead; `read_byte b`
-- whether a byte could be read; `sub_parts` and `after_parts` the parts that a multipart.Reader with a
-- boundary finds in the data, and what is left when it has answered io.EOF.
pub record Media (D : Type 0) : Type 0 where
  pub parse_media : String → (String × Dict String) × Bool
  pub detect : String → String
  pub extension : String → String
  pub type_by_extension : String → String
  pub peek : ℤ → D → String × D
  pub read_byte : D → Bool × D
  pub sub_parts : D → String → Stream D
  pub after_parts : D → String → D

-- `file_created` is a variable of ChunkHandler.ParseUpload.
pub record Upload (S D : Type 0) : Type 0 where
  pub file_created : Bool
  pub form : List (Field S D)
  pub cancels : List (Option (Cancel S))
  pub session : State S

-- How a piece of code ends: it goes on, it returns from the whole function with an error or with nil,
-- or it panics.
pub data Exit (A : Type 0) : Type 0 where
  go : A → Exit A
  stop : Option Error → Exit A
  panics : String → Exit A

abbrev pub Parse : Type 0 → Type 0 → Type 0 → Type 0
Parse S D A = Upload S D → Exit A × Upload S D

abbrev pub parsing_failed : Error
parsing_failed = foreign "Failed to parse form."

abbrev pub uploading_failed : Error
uploading_failed = foreign "File uploading failed"

abbrev pub server_form_invalid : Error
server_form_invalid = foreign "Server Error: upload form is invalid."

abbrev pub client_form_invalid : Error
client_form_invalid = foreign "Client Error: submitted upload form is invalid."

abbrev pub too_large : Error
too_large = foreign "Upload too large"

abbrev pub bad_content_type : Error
bad_content_type = foreign "Unsupported content type."

abbrev pub no_boundary : Error
no_boundary = foreign "Unable to parse submitted form. Missing boundary."

module _ {S D : Type 0} where
  abbrev pub pure : {A : Type 0} → A → Parse S D A
  pure a u = (go a, u)

  -- `return ParseResult{…}, err`
  abbrev pub return_error : {A : Type 0} → Error → Parse S D A
  return_error e u = (stop (some e), u)

  abbrev pub panic : {A : Type 0} → String → Parse S D A
  panic msg u = (panics msg, u)

  abbrev pub go_on : {A B : Type 0} → Exit A × Upload S D → (A → Parse S D B) → Exit B × Upload S D
  go_on (go a, u) f = f a u
  go_on (stop e, u) f = (stop e, u)
  go_on (panics msg, u) f = (panics msg, u)

  infixl 5 ◌>>=◌ ◌>>◌
  abbrev pub ◌>>=◌ : {A B : Type 0} → Parse S D A → (A → Parse S D B) → Parse S D B
  ◌>>=◌ m f u = go_on (m u) f

  abbrev pub ◌>>◌ : {A B : Type 0} → Parse S D A → Parse S D B → Parse S D B
  ◌>>◌ m k u = go_on (m u) (λ _. k)

  abbrev pub gets : {A : Type 0} → (Upload S D → A) → Parse S D A
  gets f u = (go (f u), u)

  abbrev pub modify : (Upload S D → Upload S D) → Parse S D (Unit {0})
  modify f u = (go tt, f u)

  abbrev pub lifted : {A : Type 0} → Upload S D → Result A × State S → Exit (Tried A) × Upload S D
  lifted u (ok a, s) = (go (done a), record u { session = s })
  lifted u (err e, s) = (go (failed e), record u { session = s })
  lifted u (crash msg, s) = (panics msg, record u { session = s })

  -- `v, err := m` with a method of the session
  abbrev pub attempt : {A : Type 0} → Action S A → Parse S D (Tried A)
  attempt m u = lifted u (m u.session)

  abbrev pub or_return : {A : Type 0} → (Error → Error) → Tried A → Parse S D A
  or_return f (done a) = pure a
  or_return f (failed e) = return_error (f e)

  -- The call of a function on the back ends.
  abbrev pub on_backends : {A : Type 0} → (S → A × S) → Parse S D A
  on_backends f u =
      let (a, b) = f u.session.backends in
      (go a, record u { session = record u.session { backends = b } })

  abbrev pub register : Cancel S → Parse S D (Unit {0})
  register c = modify (λ u. record u { cancels = add_cancel c u.cancels })
