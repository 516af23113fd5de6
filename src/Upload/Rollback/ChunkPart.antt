-- ===== src/Upload/Rollback/ChunkPart.antt =====
-- The list of rollbacks while ChunkHandler handles a part.
use xhttp.Prelude.{
  ℕ, zero, suc, refl, String, Bool, true, false, Option, none, some, List, [], ◌∷◌, not,
}
use xhttp.Prelude.Int.{ℤ}
use xhttp.Prelude.Dict.{Dict}
use xhttp.Http.{Request}
use xhttp.Session.Handler.{Handler}
use xhttp.Session.Action.{Error}
use xhttp.Upload.Form.{Object, Uploaded, uploaded, refused, Field}
use xhttp.Upload.Files.{or_refused, upload_with, expect_no_byte, expect_limit, check_type}
use xhttp.Upload.Parse.{or_invalid, validate, missing}
use xhttp.Upload.Chunked.{
  Chunk, number, chunk_object, required_header, chunk_headers, only_one, note_created, type_of_part,
  chunk_file, chunk_data, process_chunk,
}
use xhttp.Upload.Parts.{Part, Media}
use xhttp.Upload.Rollback.{
  Keeps, error-Keeps, if-Keeps, bind-Keeps, keeps_rules, register-Keeps, modify-Keeps,
  change_field-Keeps, field-Keeps,
}

module _ {S D : Type 0} where
  number-Keeps : (o : Option ℤ) → Keeps {S = S} {D = D} (number o)
  number-Keeps none = search keeps_rules
  number-Keeps (some n) = search keeps_rules

  required_header-Keeps :
      (e : Error) (o : Option (List String)) → Keeps {S = S} {D = D} (required_header e o)
  required_header-Keeps e none = search keeps_rules
  required_header-Keeps e (some []) = search keeps_rules
  required_header-Keeps e (some (v ∷ vs)) = search keeps_rules

  pub chunk_headers-Keeps : (req : Request) → Keeps {S = S} {D = D} (chunk_headers req)
  unfolding chunk_headers
  chunk_headers-Keeps req = search (keeps_rules, required_header-Keeps) depth 20

  note_created-Keeps : Keeps {S = S} {D = D} note_created
  note_created-Keeps = modify-Keeps _ (λ u. refl)

  only_one-Keeps : (b : Bool) → Keeps {S = S} {D = D} (only_one b)
  only_one-Keeps true = search keeps_rules
  only_one-Keeps false = search keeps_rules

  or_invalid-Keeps : (r : Bool × Option Error) → Keeps {S = S} {D = D} (or_invalid r)
  or_invalid-Keeps (true, e) = search keeps_rules
  or_invalid-Keeps (false, e) = record { at = λ u h. h }

  validate-Keeps : (i : ℕ) → Keeps {S = S} {D = D} (validate i)
  unfolding validate
  validate-Keeps i = search (keeps_rules, field-Keeps, or_invalid-Keeps)

  pub missing-Keeps : (k i : ℕ) → Keeps {S = S} {D = D} (missing k i)
  unfolding missing
  missing-Keeps zero i = search keeps_rules
  missing-Keeps (suc k) i =
      bind-Keeps _ _ (field-Keeps i)
        (λ f. if-Keeps (not f.content.required) _ _ (missing-Keeps k i) (error-Keeps _))

  module _ (media : Media D) where
    or_refused-Keeps :
        (wrapped : Error → Error) (r : Uploaded S D) → Keeps (or_refused media wrapped r)
    or_refused-Keeps wrapped (refused e) = search keeps_rules
    or_refused-Keeps wrapped (uploaded n c rest) = search (keeps_rules, register-Keeps)

    upload_with-Keeps :
        (wrapped : Error → Error) (o : Option (Object D → S → Uploaded S D × S)) (obj : Object D)
        → Keeps (upload_with media wrapped o obj)
    upload_with-Keeps wrapped none obj = search keeps_rules
    upload_with-Keeps wrapped (some up) obj = search (keeps_rules, or_refused-Keeps)

    expect_no_byte-Keeps : (b : D) → Keeps {S = S} (expect_no_byte media b)
    expect_no_byte-Keeps b = search keeps_rules

    expect_limit-Keeps : (n limit : ℤ) (rest : D) → Keeps {S = S} (expect_limit media n limit rest)
    expect_limit-Keeps n limit rest = search (keeps_rules, expect_no_byte-Keeps)

    check_type-Keeps : (i : ℕ) (f : Field S D) (ct : String) → Keeps (check_type media i f ct)
    check_type-Keeps i f ct = search (keeps_rules, change_field-Keeps)

    module _ (now : ℤ) where
      chunk_object-Keeps :
          (uploader : String) (c : Chunk) (f : Field S D) (b : D) (ct : String)
          → Keeps (chunk_object media now uploader c f b ct)
      unfolding chunk_object
      chunk_object-Keeps uploader c f b ct = search (keeps_rules, number-Keeps)

      type_of_part-Keeps :
          (i : ℕ) (f : Field S D) (p : Part D) (m : (String × Dict String) × Bool)
          → Keeps (type_of_part media now i f p m)
      type_of_part-Keeps i f p ((ct, params), true) = search keeps_rules
      type_of_part-Keeps i f p ((ct, params), false) = search (keeps_rules, change_field-Keeps)

      chunk_file-Keeps :
          (h : Handler S) (uploader : String) (c : Chunk) (i : ℕ) (f : Field S D) (p : Part D)
          (ct : String)
          → Keeps (chunk_file media now h uploader c i f p ct)
      unfolding chunk_file
      chunk_file-Keeps h uploader c i f p ct =
          search
            (
              keeps_rules, only_one-Keeps, chunk_object-Keeps, upload_with-Keeps,
              change_field-Keeps, expect_limit-Keeps, note_created-Keeps,
            )
            depth 24

      chunk_data-Keeps :
          (h : Handler S) (uploader : String) (c : Chunk) (i : ℕ) (f : Field S D) (p : Part D)
          (ct : String) (o : Option (List (Object D)))
          → Keeps (chunk_data media now h uploader c i f p ct o)
      chunk_data-Keeps h uploader c i f p ct none = search keeps_rules
      chunk_data-Keeps h uploader c i f p ct (some fs) = chunk_file-Keeps h uploader c i f p ct

      pub process_chunk-Keeps :
          (h : Handler S) (uploader : String) (c : Chunk) (i : ℕ) (p : Part D)
          → Keeps (process_chunk media now h uploader c i p)
      unfolding process_chunk
      process_chunk-Keeps h uploader c i p =
          search
            (
              keeps_rules, field-Keeps, type_of_part-Keeps, check_type-Keeps, chunk_data-Keeps,
              validate-Keeps,
            )
            depth 20
