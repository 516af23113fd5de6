-- ===== src/Upload/Parse.antt =====
-- handlers/chunkedupload/handler.go: the loops over the fields of the form and the parts of the
-- request, which ParseUpload of both handlers has. `process i p` stands for the body of the inner loop
-- on the field number i; it answers the part with what is left of its data.
use xhttp.Prelude.{
  ℕ, zero, suc, ◌+◌, ◌-◌, Bool, true, false, Option, none, some, not, if◌then◌else◌, ◌==◌, length,
  get_elem?, leb, set,
}
use xhttp.Session.Action.{Error, wraps, foreign}
use xhttp.Upload.Form.{Field, Content, is_valid}
use xhttp.Upload.Parts.{
  Part, Stream, eof, broken, part, Media, Upload, stop, Parse, pure, return_error, panic, ◌>>=◌,
  ◌>>◌, gets, modify, parsing_failed, client_form_invalid,
}

module _ {S D : Type 0} where
  abbrev pub at_index : Option (Field S D) → Parse S D (Field S D)
  at_index none = panic "index out of range"
  at_index (some f) = pure f

  -- f[i]
  abbrev pub field : ℕ → Parse S D (Field S D)
  field i u = at_index (get_elem? u.form i) u

  abbrev pub set_content : (Content S D → Content S D) → Field S D → Field S D
  set_content change f = record f { content = change f.content }

  abbrev pub changed_at :
      ℕ → (Content S D → Content S D) → Option (Field S D) → Upload S D → Upload S D
  changed_at i change none u = u
  changed_at i change (some f) u = record u { form = set u.form i (set_content change f) }

  -- An assignment to a field of f[i]
  abbrev pub change_field : ℕ → (Content S D → Content S D) → Parse S D (Unit {0})
  change_field i change = modify (λ u. changed_at i change (get_elem? u.form i) u)

  abbrev pub or_invalid : Bool × Option Error → Parse S D (Unit {0})
  or_invalid (true, e) = pure tt
  or_invalid (false, e) = λ u. (stop e, u)

  -- The validators of f[i]; one that refuses without an error ends the parse without an error.
  unfoldable pub validate : ℕ → Parse S D (Unit {0})
  unfolding is_valid
  validate i = do f ← field i; or_invalid (is_valid f)

  -- `for j := fieldIndex; j < len(f); j++`, with the number of rounds: every round tests f[fieldIndex].
  unfoldable pub missing : ℕ → ℕ → Parse S D (Unit {0})
  missing zero i = pure tt
  missing (suc k) i = field i >>= (λ f.
      if not f.content.required
      then missing k i
      else return_error
          (wraps client_form_invalid (foreign "upload form sent is missing a required field: ")))

  module _ (media : Media D) (process : ℕ → Part D → Parse S D (Part D)) where
    -- The inner loop, with the number of rounds left. It answers the final fieldIndex.
    unfoldable pub fields : ℕ → ℕ → ℕ → Part D → Parse S D ℕ
    fields zero i field_index p = pure field_index
    fields (suc k) i field_index p = field field_index >>= (λ f.
        if not (p.form_name == f.content.name)
        then (if not f.content.required
            then fields k (i + 1) (field_index + 1) p
            else return_error
                (wraps client_form_invalid (foreign "fields are missing or are sent out-of-order")))
        else (process i p >>= (λ p'. fields k (i + 1) i p')))

    abbrev pub expect_end : Stream D → Parse S D (Unit {0})
    expect_end eof = pure tt
    expect_end _ = return_error (wraps client_form_invalid (foreign "the end has not been reached"))

    abbrev pub form_data : Part D → Parse S D (Unit {0})
    form_data p =
        if not ((media.parse_media p.disposition).0.0 == "form-data")
        then return_error (wraps client_form_invalid (foreign "bad formatting"))
        else pure tt

    abbrev pub in_form : ℕ → Parse S D (Unit {0})
    in_form i u =
        if leb (length u.form) i
        then return_error (wraps client_form_invalid (foreign "a field is not expected")) u
        else pure tt u

    -- One part, up to the test that it was the last one.
    unfoldable pub one_part : ℕ → Part D → Stream D → Parse S D ℕ
    unfolding fields
    one_part i p rest = do
      form_data p
      n ← gets (λ u. length u.form)
      j ← fields (n - i) i i p
      in_form j
      expect_end rest
      pure j

    -- The outer loop at fieldIndex.
    unfoldable pub parts : ℕ → Stream D → Parse S D (Unit {0})
    unfolding one_part missing
    parts i eof u = if leb (length u.form) i then pure tt u else missing (length u.form - i) i u
    parts i (broken e) u =
        if leb (length u.form) i
        then pure tt u
        else return_error (wraps parsing_failed (foreign e)) u
    parts i (part p rest peeked after) u =
        let next : ℕ → Parse S D (Unit {0}) = λ j. parts (j + 1) rest in
        if leb (length u.form) i then pure tt u else (one_part i p rest >>= next) u
