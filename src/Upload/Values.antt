-- ===== src/Upload/Values.antt =====
-- Parts that are no files.
use xhttp.Prelude.{ℕ, ◌≡◌, refl, String, true, false, none, some, ◌==◌, get_elem?}
use xhttp.Prelude.Dict.{Dict}
use xhttp.Upload.Form.{Field}
use xhttp.Upload.Sets.{contains}
use xhttp.Upload.Parts.{Part, Media, Upload, panics}
use xhttp.Upload.Files.{Config, process, part_data}

module _ {S D : Type 0} (media : Media D) where
  -- A part of an allowed type for a field that is no file field makes ParseUpload panic, unless its
  -- type is multipart/mixed.
  pub process-panics :
      (h : Config S) (i : ℕ) (p : Part D) (u : Upload S D) (f : Field S D) (ct : String)
      (params : Dict String)
      → get_elem? u.form i ≡ some f
      → f.content.files ≡ none
      → media.parse_media p.content_type ≡ ((ct, params), true)
      → contains ct false f.content.allowed_content_types ≡ true
      → (ct == "multipart/mixed") ≡ false
      → (process media h i p u).0 ≡ panics "invalid memory address or nil pointer dereference"
  unfolding process part_data
  process-panics h i p u f ct params found no_file typed allowed plain =
      rw (found, typed, allowed, plain, no_file) refl
