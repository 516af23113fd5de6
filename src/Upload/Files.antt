-- ===== src/Upload/Files.antt =====
-- handlers/chunkedupload/handler.go: what ParseUpload does with a part for the field that it is
-- matched with: the check of its type, the upload of one file or of the files of a multipart/mixed
-- part, and the validators.
use xhttp.Prelude.{
  ℕ, String, Bool, true, false, Option, none, some, List, [], ◌∷◌, not, ◌||◌, ◌&&◌, if◌then◌else◌,
  ◌==◌,
}
use xhttp.Prelude.{◌++◌ as append}
use xhttp.Prelude.Dict.{Dict, lookup}
use xhttp.Prelude.Int.{ℤ, pos, ◌-ℤ◌, ltb_ℤ, is_zero}
use xhttp.Session.Action.{Error, wraps, foreign, Result, ok, err, crash}
use xhttp.Upload.Sets.{contains}
use xhttp.Upload.Form.{Object, Field, Content, Uploaded, uploaded, refused, new_file}
use xhttp.Upload.Parts.{
  Part, Stream, eof, broken, part, Media, Parse, pure, return_error, panic, ◌>>=◌, ◌>>◌,
  on_backends, register, parsing_failed, uploading_failed, server_form_invalid, client_form_invalid,
  too_large, bad_content_type, no_boundary,
}
use xhttp.Upload.Parse.{field, change_field, validate}

-- The fields of Handler that ParseUpload reads beside the form and the session.
pub record Config (S : Type 0) : Type 0 where
  pub uploader_id : String
  pub file_id : S → Result String × S

abbrev pub allowed : {S D : Type 0} → Field S D → String → Bool
allowed f ct = contains ct false f.content.allowed_content_types

-- The peek size: 512 or the limit, if that is less.
abbrev pub peek_size : ℤ → ℤ
peek_size limit = if ltb_ℤ limit (pos 512) then limit else pos 512

abbrev all_files : {D : Type 0} → Option (List (Object D)) → List (Object D)
all_files none = []
all_files (some fs) = fs

module _ {S D : Type 0} (media : Media D) where
  open media use {
    parse_media, detect, extension, type_by_extension, peek, read_byte, sub_parts, after_parts,
  }

  abbrev pub unsupported : {A : Type 0} → Parse S D A
  unsupported = return_error (foreign "Unsupported Content-Type")

  -- What follows where the sniffed type is not allowed: every branch returns an error.
  abbrev by_extension : Field S D → Part D → Parse S D (Unit {0})
  by_extension f p =
      if not (p.file_name == "")
        && not (extension p.file_name == "")
        && not (allowed f (type_by_extension (extension p.file_name)))
      then return_error (foreign "Unknown Content-Type")
      else unsupported

  abbrev pub with_type : String → Content S D → Content S D
  with_type ct c = record c { content_type = ct }

  -- The type of a part whose header could not be parsed. The new reader has read ahead in the part.
  abbrev sniffed : ℕ → Field S D → Part D → String × D → Parse S D (String × Part D)
  sniffed i f p (shown, rest) = do
    if allowed f (detect shown) then pure tt else by_extension f p
    change_field i (with_type (detect shown))
    pure (detect shown, record p { body = rest })

  abbrev pub type_of_part :
      ℕ → Field S D → Part D → (String × Dict String) × Bool → Parse S D (String × Part D)
  type_of_part i f p ((ct, params), true) = pure (ct, p)
  type_of_part i f p ((ct, params), false) =
      sniffed i f p (peek (peek_size f.content.size_limit) p.body)

  abbrev pub check_type : ℕ → Field S D → String → Parse S D (Unit {0})
  check_type i f ct =
      if not (allowed f ct)
      then return_error (wraps client_form_invalid bad_content_type)
      else change_field i (with_type ct)

  -- The answer of an upload function whose rollback is registered.
  abbrev pub or_refused : (Error → Error) → Uploaded S D → Parse S D (ℤ × D)
  or_refused wrapped (refused e) = return_error (wrapped e)
  or_refused wrapped (uploaded n c rest) = do register c; pure (n, rest)

  abbrev pub upload_with :
      (Error → Error) → Option (Object D → S → Uploaded S D × S) → Object D → Parse S D (ℤ × D)
  upload_with wrapped none obj =
      return_error (wraps server_form_invalid (foreign "Lacking the upload function."))
  upload_with wrapped (some up) obj = do r ← on_backends (up obj); or_refused wrapped r

  abbrev pub or_no_id : Result String → Parse S D String
  or_no_id (ok i) = pure i
  or_no_id (err e) =
      return_error
        (wraps uploading_failed (foreign "Unable to generate unique id for the upload file."))
  or_no_id (crash msg) = panic msg

  -- A new file with an identifier of its own.
  unfoldable pub identified : Config S → Object D → Parse S D (Object D)
  identified h obj = do
    r ← on_backends h.file_id
    i ← or_no_id r
    pure (record obj { file_uuid = i })

  -- `c, _ := p.Read(s)`, and an error if there is a byte left
  abbrev pub expect_no_byte : D → Parse S D D
  expect_no_byte b =
      let (more, rest) = read_byte b in
      if more then return_error (wraps too_large (foreign "limit")) else pure rest

  abbrev pub add_file : Object D → Content S D → Content S D
  add_file obj c = record c { files = some (append (all_files c.files) (obj ∷ [])) }

  abbrev pub left_over : ℤ → Parse S D (Unit {0})
  left_over remaining =
      if ltb_ℤ remaining (pos 0) then return_error (wraps too_large (foreign "limit")) else pure tt

  -- One file of a multipart/mixed part; `continue` is the rest of the loop.
  unfoldable pub mixed_file :
      Config S
      → ℕ
      → Field S D
      → Part D
      → String
      → (ℤ → Parse S D (Unit {0}))
      → ℤ
      → Parse S D (Unit {0})
  unfolding identified ◌-ℤ◌
  mixed_file h i f q ct continue remaining = do
    if not (allowed f "multipart/mixed") || ct == "multipart/mixed"
        then return_error bad_content_type
        else pure tt
    obj ← identified h (new_file (q.body, remaining) q.file_name ct h.uploader_id f.content.path)
    (n, rest) ← upload_with (wraps uploading_failed) f.content.upload obj
    change_field i (add_file obj)
    left_over (remaining -ℤ n)
    expect_no_byte rest
    continue (remaining -ℤ n)

  -- The loop over the files of a multipart/mixed part. A file without a readable type is typed by
  -- what stands in the outer part.
  unfoldable pub mixed_files : Config S → ℕ → Field S D → Stream D → ℤ → Parse S D (Unit {0})
  unfolding mixed_file
  mixed_files h i f eof remaining = pure tt
  mixed_files h i f (broken e) remaining = return_error (wraps parsing_failed (foreign e))
  mixed_files h i f (part q rest peeked after) remaining =
      let n = peek_size remaining in
      let plain = mixed_files h i f rest in
      let shifted = mixed_files h i f (after n) in
      let (ct, params) = (parse_media q.content_type).0 in
      if (parse_media q.content_type).1
      then mixed_file h i f q ct plain remaining
      else mixed_file h i f q (detect (peeked n)) shifted remaining

  -- A part of type multipart/mixed
  abbrev pub mixed : Config S → ℕ → Field S D → Part D → Option String → Parse S D (Part D)
  mixed h i f p none = return_error (wraps parsing_failed no_boundary)
  mixed h i f p (some boundary) = do
    mixed_files h i f (sub_parts p.body boundary) f.content.size_limit
    pure (record p { body = after_parts p.body boundary })

  abbrev pub one_file_in : Object D → Content S D → Content S D
  one_file_in obj c = record c { files = some (obj ∷ []) }

  -- `if n == limit`, a further byte is too many
  abbrev pub expect_limit : ℤ → ℤ → D → Parse S D D
  expect_limit n limit rest = if is_zero (n -ℤ limit) then expect_no_byte rest else pure rest

  -- A file of its own
  unfoldable pub single_file : Config S → ℕ → Field S D → Part D → String → Parse S D (Part D)
  unfolding identified ◌-ℤ◌
  single_file h i f p ct = do
    obj ←
        identified h
          (new_file (p.body, f.content.size_limit) p.file_name ct h.uploader_id f.content.path)
    (n, rest) ← upload_with (λ e. e) f.content.upload obj
    change_field i (one_file_in obj)
    rest' ← expect_limit n f.content.size_limit rest
    pure (record p { body = rest' })

  -- A value that is no file: ReadFrom is called on a nil *bytes.Buffer.
  abbrev pub value_or_file :
      Config S → ℕ → Field S D → Part D → String → Option (List (Object D)) → Parse S D (Part D)
  value_or_file h i f p ct none = panic "invalid memory address or nil pointer dereference"
  value_or_file h i f p ct (some fs) = single_file h i f p ct

  unfoldable pub part_data : Config S → ℕ → Field S D → Part D → String → Parse S D (Part D)
  unfolding mixed_files single_file
  part_data h i f p ct =
      if ct == "multipart/mixed"
      then mixed h i f p (lookup "boundary" (parse_media p.content_type).0.1)
      else value_or_file h i f p ct f.content.files

  -- The body of the inner loop on a field that has the part's name.
  unfoldable pub process : Config S → ℕ → Part D → Parse S D (Part D)
  unfolding part_data validate
  process h i p = do
    f ← field i
    (ct, p') ← type_of_part i f p (parse_media p.content_type)
    check_type i f ct
    p'' ← part_data h i f p' ct
    validate i
    pure p''
