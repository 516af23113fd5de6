-- ===== src/Upload/Examples.antt =====
-- A form with one file field, and requests that send it.
use xhttp.Prelude.{
  ℕ, zero, suc, ◌≡◌, refl, String, Bool, true, false, none, some, List, [], ◌∷◌, if◌then◌else◌,
  ◌==◌,
}
use xhttp.Prelude.Dict.{Dict, lookup, insert}
use xhttp.Prelude.Int.{pos, ◌-ℤ◌, is_zero}
use xhttp.Prelude.Text.{to_lower}
use xhttp.Context.{cookie}
use xhttp.Http.{Request, ctx_value, get_header}
use xhttp.Session.Action.{ok}
use xhttp.Session.Handler.{Handler, id}
use xhttp.Session.Load.{load, loaded}
use xhttp.Session.Samples.{toy_codec, newcomer}
use xhttp.Upload.Sets.{holds, contains, add}
use xhttp.Upload.Form.{
  Field, Object, Cancel, Uploaded, uploaded, new_file_field, new_field, new_file, is_valid,
}
use xhttp.Upload.Parts.{Part, Stream, eof, part, Media, Upload, go, panics}
use xhttp.Upload.Parse.{set_content, parts, one_part, fields, validate}
use xhttp.Upload.Files.{Config, with_type, process, part_data, single_file, identified}
use xhttp.Upload.Accepted.{parts-eof, HasShortBody}
use xhttp.Upload.Served.{serve_http-HasShortBody}
use xhttp.Upload.Single.{sent_object, stored_field, IsSendable, filed, parts-filed}
use xhttp.Upload.Serve.{Uploader, Errors, serve_http, parse_upload, answer}
use xhttp.Upload.Chunked.{Chunker, serve_chunk, parse_chunk, parse_request, chunk_headers}
use xhttp.Upload.Rollback.Served.{serve_chunk-panics}

-- The data of a part is the number of bytes that are left.
abbrev pub toy_parse_media : String → (String × Dict String) × Bool
toy_parse_media s =
    if s == "multipart"
    then (("multipart/form-data", ("boundary", "b") ∷ []), true)
    else ((s, []), true)

abbrev pub toy_read_byte : ℕ → Bool × ℕ
toy_read_byte zero = (false, zero)
toy_read_byte (suc n) = (true, n)

abbrev pub toy_media : Media ℕ
toy_media = record {
  parse_media = toy_parse_media;
  detect = λ s. "application/octet-stream";
  extension = λ s. "";
  type_by_extension = λ s. "";
  peek = λ n b. ("", 0);
  read_byte = toy_read_byte;
  sub_parts = λ b s. eof;
  after_parts = λ b s. 0;
}

-- Every upload reads all.
abbrev toy_upload : Object ℕ → List String → Uploaded (List String) ℕ × List String
toy_upload obj b = (uploaded (pos 5) (λ b. (none, b)) 0, b)

abbrev photo : Field (List String) ℕ
photo = new_file_field "photo" (pos 100) true false "/" (some toy_upload) ("image/png" ∷ [])

abbrev title : Field (List String) ℕ
title = new_field "title" (pos 100) false ("text/plain" ∷ [])

abbrev pub photo_part : Part ℕ
photo_part = record {
  content_type = "image/png";
  disposition = "form-data";
  form_name = "photo";
  file_name = "a.png";
  body = 5;
}

abbrev one_part_only : String → Stream ℕ
one_part_only b = part photo_part eof (λ n. "") (λ n. eof)

abbrev sent : Request
sent = record {
  method = "POST";
  scheme = "https";
  path = "/";
  header = ("Content-Type", "multipart" ∷ []) ∷ [];
  cookies = [];
  ctx = (7, cookie newcomer.http_cookie) ∷ [];
}

abbrev no_info : Request → String
no_info r = ""

abbrev session_handler : Handler (List String)
session_handler = record {
  name = "s";
  server_only = false;
  context_key = 7;
  store = none;
  cache = none;
  uuidgen = λ b. (ok "u1", b);
}

abbrev uploader : Uploader (List String)
uploader = record { session = session_handler; parent = none; file_id = λ b. (ok "f1", b) }

abbrev errors : Errors
errors = record { same = λ e f. false; text = λ e. "" }

abbrev before : List (Field (List String) ℕ) → Upload (List String) ℕ
before form = record {
  file_created = false;
  form = form;
  cancels = [];
  session = record {
    cookie = newcomer;
    parent_cookie = newcomer;
    backends = [];
    res = record { header = []; sent = none; body = [] };
  };
}

parts-eof_example :
    parts toy_media
      (process toy_media (record { uploader_id = "u"; file_id = λ b. (ok "f1", b) }))
      0
      eof
      (before (title ∷ photo ∷ []))
    ≡ (go tt, before (title ∷ photo ∷ []))
unfolding new_field
parts-eof_example = parts-eof toy_media _ 0 title (before (title ∷ photo ∷ [])) refl

serve_http-HasShortBody_example :
    HasShortBody one_part_only (("multipart/form-data", ("boundary", "b") ∷ []), true)
unfolding serve_http parse_upload load loaded ctx_value id get_header lookup parts one_part fields
    process part_data single_file identified validate is_valid answer new_file_field new_file
    contains holds add insert to_lower ◌-ℤ◌
serve_http-HasShortBody_example =
    serve_http-HasShortBody toy_media toy_codec no_info (pos 100) one_part_only errors uploader sent
      (before (photo ∷ [])) _ _ refl

abbrev chunker : Chunker (List String)
chunker = record { uploader = session_handler; session = session_handler }

serve_chunk-panics_example :
    (serve_chunk toy_media toy_codec no_info
      (pos 100)
      one_part_only
      errors
      chunker
      sent
      (before (photo ∷ []))).0
    ≡ panics "invalid memory address or nil pointer dereference"
unfolding parse_chunk parse_request loaded ctx_value id lookup chunk_headers
serve_chunk-panics_example =
    serve_chunk-panics toy_media toy_codec no_info (pos 100) one_part_only errors chunker sent
      (before (photo ∷ [])) _ refl

abbrev config : Config (List String)
config = record { uploader_id = "u"; file_id = λ b. (ok "f1", b) }

abbrev undo : Cancel (List String)
undo b = (none, b)

photo-IsSendable : IsSendable toy_media config photo photo_part "image/png"
unfolding new_file_field contains holds add insert lookup to_lower
photo-IsSendable = record {
  form_data = refl;
  named = refl;
  parameters = [];
  typed = refl;
  allowed = refl;
  plain = refl;
  old_files = [];
  is_file = refl;
}

upload_test : photo.content.upload ≡ some toy_upload
unfolding new_file_field
upload_test = refl

abbrev sent_photo : Object ℕ
sent_photo = sent_object toy_media config photo.content photo_part "image/png" "f1"

limit_test : is_zero (pos 5 -ℤ photo.content.size_limit) ≡ false
unfolding ◌-ℤ◌ new_file_field
limit_test = refl

valid_test : is_valid (stored_field toy_media config photo "image/png" sent_photo) ≡ (true, none)
unfolding is_valid new_file_field
valid_test = refl

parts-filed_example :
    parts toy_media (process toy_media config) 0 (one_part_only "b") (before (photo ∷ [])) ≡ (
      go tt,
      filed toy_media config
          (set_content (with_type toy_media "image/png") photo)
          sent_photo
          undo
          []
          (before []),
    )
parts-filed_example =
    parts-filed toy_media config photo photo_part "image/png" "f1" toy_upload (before []) [] []
      (pos 5) undo 0 upload_test refl refl limit_test photo-IsSendable valid_test (λ n. "")
      (λ n. eof)
