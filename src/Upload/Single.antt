-- ===== src/Upload/Single.antt =====
-- A form with one file field, and a request with one part for it.
use xhttp.Prelude.{◌≡◌, refl, String, true, false, none, some, List, [], ◌∷◌, ap, ◌∙◌, ◌==◌, eq_iff}
use xhttp.Prelude.Dict.{Dict}
use xhttp.Prelude.Int.{ℤ, ◌-ℤ◌, is_zero}
use xhttp.Session.Action.{ok}
use xhttp.Upload.Sets.{contains}
use xhttp.Upload.Form.{
  Object, Field, Content, Cancel, Uploaded, uploaded, new_file, add_cancel, is_valid,
}
use xhttp.Upload.Parts.{Part, Stream, eof, part, Media, Upload, go}
use xhttp.Upload.Parse.{set_content, parts, one_part, fields, validate}
use xhttp.Upload.Files.{
  Config, with_type, one_file_in, value_or_file, process, part_data, single_file, identified,
}

module _ {S D : Type 0} (media : Media D) (h : Config S) where
  -- What the upload function is called with.
  abbrev pub sent_object : Content S D → Part D → String → String → Object D
  sent_object c p ct i =
      record (new_file (p.body, c.size_limit) p.file_name ct h.uploader_id c.path) { file_uuid = i }

  abbrev pub stored_field : Field S D → String → Object D → Field S D
  stored_field f ct obj = record f {
    content = record f.content { content_type = ct; files = some (obj ∷ []) };
  }

  -- What is asked of the part `p` and of the field.
  pub record IsSendable (f : Field S D) (p : Part D) (ct : String) : Type 0 where
    pub form_data : (media.parse_media p.disposition).0.0 ≡ "form-data"
    pub named : p.form_name ≡ f.content.name
    pub parameters : Dict String
    pub typed : media.parse_media p.content_type ≡ ((ct, parameters), true)
    pub allowed : contains ct false f.content.allowed_content_types ≡ true
    pub plain : (ct == "multipart/mixed") ≡ false
    pub old_files : List (Object D)
    pub is_file : f.content.files ≡ some old_files

  -- The state after the one field `g` was given the file
  abbrev pub filed : Field S D → Object D → Cancel S → S → Upload S D → Upload S D
  filed g obj c b u = record u {
    form = set_content (one_file_in media obj) g ∷ [];
    cancels = add_cancel c u.cancels;
    session = record u.session { backends = b };
  }

  module _ (f : Field S D) (p : Part D) (ct i : String) (up : Object D → S → Uploaded S D × S)
      (u : Upload S D) (b b' : S) (n : ℤ) (c : Cancel S) (rest : D)
      (has_upload : f.content.upload ≡ some up) (new : h.file_id u.session.backends ≡ (ok i, b))
      (sent : up (sent_object f.content p ct i) b ≡ (uploaded n c rest, b'))
      (below : is_zero (n -ℤ f.content.size_limit) ≡ false) where
    single_file-filed :
        (g : Field S D)
        → single_file media h 0 f p ct (record u { form = g ∷ [] })
          ≡ (go (record p { body = rest }), filed g (sent_object f.content p ct i) c b' u)
    unfolding single_file identified
    single_file-filed g = rw (new, has_upload, sent, below) refl

    module _ (s : IsSendable f p ct)
        (fine : is_valid (stored_field f ct (sent_object f.content p ct i)) ≡ (true, none)) where
      process-filed : process media h 0 p (record u { form = f ∷ [] }) ≡ (
        go (record p { body = rest }),
        filed (set_content (with_type media ct) f) (sent_object f.content p ct i) c b' u,
      )
      unfolding process part_data validate
      process-filed =
          let g = set_content (with_type media ct) f in
          let kept : value_or_file media h 0 f p ct f.content.files (record u { form = g ∷ [] })
              ≡ (go (record p { body = rest }), filed g (sent_object f.content p ct i) c b' u) =
            ap (λ o. value_or_file media h 0 f p ct o (record u { form = g ∷ [] })) s.is_file
            ∙ single_file-filed g in
          rw (s.typed, s.allowed, s.plain, kept, fine) refl

      -- A form of one file field takes the one part of a request: if the part is sendable for the
      -- field, a new identifier could be generated, the upload function has taken the file without
      -- reaching the size limit, and the validators accept it, then ParseUpload goes on with the form
      -- in which the field has the type of the part and this one file, and with the rollback added.
      pub parts-filed :
          (peeked : ℤ → String) (after : ℤ → Stream D)
          → parts media (process media h) 0 (part p eof peeked after) (record u { form = f ∷ [] })
            ≡ (
              go tt,
              filed (set_content (with_type media ct) f) (sent_object f.content p ct i) c b' u,
            )
      unfolding parts one_part fields
      parts-filed peeked after =
          let same : (p.form_name == f.content.name) ≡ true =
            (eq_iff p.form_name f.content.name).1 s.named in
          rw (s.form_data, same, process-filed) refl
