-- ===== src/Upload/Chunked.antt =====
-- handlers/chunkedupload/chunked.go: ParseUpload and ServeHTTP of ChunkHandler. The session of the
-- uploader is the parent of the session of the upload.
use xhttp.Prelude.{
  ℕ, zero, String, Bool, true, false, Option, none, some, List, [], ◌∷◌, if◌then◌else◌, ◌==◌,
}
use xhttp.Prelude.Dict.{Dict, lookup}
use xhttp.Prelude.Int.{ℤ}
use xhttp.Prelude.Scan.{parse_int}
use xhttp.Http.{Request, error_response, get_header}
use xhttp.Session.Action.{Error, wraps, foreign, on_parent}
use xhttp.Session.Codec.{Codec}
use xhttp.Session.Handler.{Handler, id, get}
use xhttp.Session.Load.{loaded, load_server_only}
use xhttp.Upload.Form.{Field, Object, new_file, cancel, Canceled, canceled, nil_called}
use xhttp.Upload.Parts.{
  Part, Stream, Media, Upload, Exit, go, stop, panics, Parse, pure, return_error, panic, ◌>>=◌,
  ◌>>◌, gets, modify, attempt, or_return, parsing_failed, uploading_failed, server_form_invalid,
}
use xhttp.Upload.Parse.{field, change_field, validate, parts}
use xhttp.Upload.Files.{
  allowed, peek_size, unsupported, with_type, check_type, upload_with, one_file_in, expect_limit,
}
use xhttp.Upload.Serve.{Errors, refusal, fresh_canceler, boundary_of, expect_form, respond}

-- ChunkHandler: the session of the uploader and the session of the upload.
pub record Chunker (S : Type 0) : Type 0 where
  pub uploader : Handler S
  pub session : Handler S

-- The headers of a chunk
pub record Chunk : Type 0 where
  pub upload_id : String
  pub filename : String
  pub filesize : String
  pub chunk_size : String
  pub chunk_offset : String
  pub chunks_total : String

module _ {S D : Type 0} where
  -- `v, ok := r.Header[key]`, an error where there is none, and `v[0]`
  abbrev pub required_header : Error → Option (List String) → Parse S D String
  required_header e none = return_error (wraps parsing_failed e)
  required_header e (some []) = panic "index out of range"
  required_header e (some (v ∷ vs)) = pure v

  -- The headers, in the order in which they are looked for
  unfoldable pub chunk_headers : Request → Parse S D Chunk
  unfolding lookup
  chunk_headers req = do
    i ← required_header (foreign "uploadid header missing") (lookup "Uploadid" req.header)
    name ← required_header (foreign "filename header missing") (lookup "Filename" req.header)
    filesize ← required_header (foreign "filesize header missing") (lookup "Filesize" req.header)
    chunk_size ←
        required_header (foreign "chunksize header missing") (lookup "Chunksize" req.header)
    offset ←
        required_header (foreign "chunkoffset header missing") (lookup "Chunkoffset" req.header)
    total ← required_header (foreign "chunkstotal header missing") (lookup "Chunkstotal" req.header)
    pure (record {
      upload_id = i;
      filename = name;
      filesize = filesize;
      chunk_size = chunk_size;
      chunk_offset = offset;
      chunks_total = total;
    })

  -- strconv.ParseInt(s, 10, 64)
  abbrev pub number : Option ℤ → Parse S D ℤ
  number none = return_error (wraps parsing_failed (foreign "strconv.ParseInt"))
  number (some n) = pure n

  -- `if uploadFileCreated`
  abbrev pub only_one : Bool → Parse S D (Unit {0})
  only_one true = return_error (
      wraps server_form_invalid (foreign "Only one file upload field is allowed for chunk uploads"))
  only_one false = pure tt

  abbrev pub note_created : Parse S D (Unit {0})
  note_created = modify (λ u. record u { file_created = true })

module _ {S D : Type 0} (media : Media D) (now : ℤ) where
  open media use {parse_media, detect, peek}

  abbrev sniffed : ℕ → Field S D → Part D → String × D → Parse S D (String × Part D)
  sniffed i f p (shown, rest) = do
    if allowed f (detect shown) then pure tt else unsupported media
    change_field i (with_type media (detect shown))
    pure (detect shown, record p { body = rest })

  abbrev pub type_of_part :
      ℕ → Field S D → Part D → (String × Dict String) × Bool → Parse S D (String × Part D)
  type_of_part i f p ((ct, params), true) = pure (ct, p)
  type_of_part i f p ((ct, params), false) =
      sniffed i f p (peek (peek_size f.content.size_limit) p.body)

  -- The object of a chunk, from its headers
  unfoldable pub chunk_object : String → Chunk → Field S D → D → String → Parse S D (Object D)
  unfolding parse_int
  chunk_object uploader c f b ct = do
    choff ← number (parse_int c.chunk_offset)
    chtot ← number (parse_int c.chunks_total)
    fsize ← number (parse_int c.filesize)
    chsize ← number (parse_int c.chunk_size)
    let obj = new_file (b, f.content.size_limit) c.filename ct uploader f.content.path
    pure (record obj {
      upload_id = c.upload_id;
      chunk_offset = choff;
      chunks_total = chtot;
      filesize = fsize;
      size = chsize;
    })

  -- The part of a file field
  unfoldable pub chunk_file :
      Handler S → String → Chunk → ℕ → Field S D → Part D → String → Parse S D (Part D)
  unfolding chunk_object
  chunk_file session uploader c i f p ct = do
    created ← gets (λ u. u.file_created)
    only_one created
    obj ← chunk_object uploader c f p.body ct
    r ← attempt (get now session c.upload_id)
    uuid ← or_return (λ e. wraps uploading_failed (foreign "Missing file UUID.")) r
    let obj' = record obj { file_uuid = uuid }
    (n, rest) ← upload_with media (λ e. e) f.content.upload obj'
    change_field i (one_file_in media obj')
    note_created
    rest' ← expect_limit media n f.content.size_limit rest
    pure (record p { body = rest' })

  -- A value that is no file: ReadFrom is called on a nil *bytes.Buffer.
  abbrev pub chunk_data :
      Handler S
      → String
      → Chunk
      → ℕ
      → Field S D
      → Part D
      → String
      → Option (List (Object D))
      → Parse S D (Part D)
  chunk_data session uploader c i f p ct none =
      panic "invalid memory address or nil pointer dereference"
  chunk_data session uploader c i f p ct (some fs) = chunk_file session uploader c i f p ct

  abbrev pub not_mixed : String → Parse S D (Unit {0})
  not_mixed ct =
      if ct == "multipart/mixed"
      then return_error (
          wraps server_form_invalid
            (foreign "Chunked upload does not support multiple file upload"))
      else pure tt

  -- The body of the inner loop on a field that has the part's name.
  unfoldable pub process_chunk : Handler S → String → Chunk → ℕ → Part D → Parse S D (Part D)
  unfolding chunk_file validate
  process_chunk session uploader c i p = do
    f ← field i
    (ct, p') ← type_of_part i f p (parse_media p.content_type)
    check_type media i f ct
    not_mixed ct
    p'' ← chunk_data session uploader c i f p' ct f.content.files
    validate i
    pure p''

-- ServeHTTP after ParseUpload: on an error it calls the rollbacks first.
module _ {S D : Type 0} (errors : Errors) where
  abbrev rolled_back :
      Error → Upload S D → Canceled S → Exit (Option (List (Field S D))) × Upload S D
  rolled_back e u (canceled es b) = (
    go none,
    respond (refusal errors e) (record u { session = record u.session { backends = b } }),
  )
  rolled_back e u (nil_called b) = (
    panics "invalid memory address or nil pointer dereference",
    record u { session = record u.session { backends = b } },
  )

  unfoldable pub chunk_answer :
      Exit (Unit {0}) × Upload S D → Exit (Option (List (Field S D))) × Upload S D
  unfolding refusal error_response cancel
  chunk_answer (go x, u) = (go (some u.form), u)
  chunk_answer (stop none, u) = (go (some []), u)
  chunk_answer (stop (some e), u) = rolled_back e u (cancel u.cancels u.session.backends)
  chunk_answer (panics msg, u) = (panics msg, u)

module _ {S D : Type 0} (media : Media D) (codec : Codec) (info : Request → String) (now : ℤ)
    (request_parts : String → Stream D) where
  abbrev pub expect_loaded : Bool → Parse S D (Unit {0})
  expect_loaded true = pure tt
  expect_loaded false =
      return_error (wraps parsing_failed (foreign "uploader session is not loaded"))

  -- ParseUpload after its variables
  unfoldable pub parse_request : Chunker S → Request → Parse S D (Unit {0})
  unfolding loaded parts process_chunk chunk_headers get_header
  parse_request h req = do
    expect_loaded (loaded h.uploader req.ctx)
    r ← attempt (on_parent (id now h.uploader))
    uploader ← or_return (λ e. wraps parsing_failed (wraps (foreign "No session ID found.") e)) r
    c ← chunk_headers req
    r' ← attempt (load_server_only codec info now req c.upload_id h.session (some h.uploader))
    or_return (wraps parsing_failed) r'
    boundary ← boundary_of (media.parse_media (get_header "Content-Type" req.header))
    expect_form
    parts media (process_chunk media now h.session uploader c) zero (request_parts boundary)

  -- ChunkHandler.ParseUpload
  unfoldable pub parse_chunk : Chunker S → Request → Parse S D (Unit {0})
  unfolding parse_request
  parse_chunk h req = do
    fresh_canceler
    modify (λ u. record u { file_created = false })
    parse_request h req

  -- ChunkHandler.ServeHTTP, up to the call of the next handler
  unfoldable pub serve_chunk :
      Errors → Chunker S → Request → Upload S D → Exit (Option (List (Field S D))) × Upload S D
  unfolding parse_chunk chunk_answer
  serve_chunk errors h req u = chunk_answer errors (parse_chunk h req u)
