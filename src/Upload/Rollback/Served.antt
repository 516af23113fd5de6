-- ===== src/Upload/Rollback/Served.antt =====
-- ServeHTTP of ChunkHandler on a request that it refuses.
use xhttp.Prelude.{
  ℕ, zero, suc, ◌+◌, ◌-◌, ◌≡◌, refl, String, Bool, true, false, Option, none, some, List, [], ◌∷◌,
  if◌then◌else◌, not, length, leb, ◌==◌,
}
use xhttp.Prelude.Int.{ℤ}
use xhttp.Prelude.Dict.{Dict}
use xhttp.Http.{Request}
use xhttp.Session.Action.{Error}
use xhttp.Session.Codec.{Codec}
use xhttp.Upload.Form.{Field, cancel}
use xhttp.Upload.Parts.{
  Part, Stream, eof, broken, part, Media, Upload, Exit, go, stop, panics, Parse,
}
use xhttp.Upload.Parse.{fields, form_data, in_form, expect_end, one_part, parts}
use xhttp.Upload.Serve.{
  Errors, boundary_of, expect_form, form_given, or_no_boundary, fresh_canceler,
}
use xhttp.Upload.Chunked.{
  Chunker, parse_request, parse_chunk, serve_chunk, chunk_answer, expect_loaded,
}
use xhttp.Upload.Rollback.{
  Keeps, has_nil, cancel-has_nil, pure-Keeps, error-Keeps, if-Keeps, bind-Keeps, keeps_rules,
  field-Keeps,
}
use xhttp.Upload.Rollback.ChunkPart.{missing-Keeps, process_chunk-Keeps, chunk_headers-Keeps}

if_at-has_nil :
    {S D A : Type 0} (b : Bool) (m k : Parse S D A) (u : Upload S D)
    → Keeps m
    → Keeps k
    → has_nil u.cancels ≡ true
    → has_nil (if b then m u else k u).1.cancels ≡ true
if_at-has_nil true m k u km kk h = km.at u h
if_at-has_nil false m k u km kk h = kk.at u h

module _ {S D : Type 0} (media : Media D) where
  module _ (process : ℕ → Part D → Parse S D (Part D))
      (kept : (i : ℕ) (p : Part D) → Keeps (process i p)) where
    fields-Keeps :
        (k i field_index : ℕ) (p : Part D) → Keeps (fields media process k i field_index p)
    unfolding fields
    fields-Keeps zero i field_index p = search keeps_rules
    fields-Keeps (suc k) i field_index p = bind-Keeps _ _ (field-Keeps field_index) (λ f.
        if-Keeps (not (p.form_name == f.content.name)) _ _
          (if-Keeps (not f.content.required) _ _ (fields-Keeps k (i + 1) (field_index + 1) p)
            (error-Keeps _))
          (bind-Keeps _ _ (kept i p) (λ p'. fields-Keeps k (i + 1) i p')))

    expect_end-Keeps : (rest : Stream D) → Keeps (expect_end media process rest)
    expect_end-Keeps eof = search keeps_rules
    expect_end-Keeps (broken x) = search keeps_rules
    expect_end-Keeps (part p rest peeked after) = search keeps_rules

    form_data-Keeps : (p : Part D) → Keeps (form_data media process p)
    form_data-Keeps p = search keeps_rules

    in_form-Keeps : (i : ℕ) → Keeps (in_form media process i)
    in_form-Keeps i = record {
      at = λ u h. if_at-has_nil (leb (length u.form) i) _ _ u (error-Keeps _) (pure-Keeps tt) h;
    }

    one_part-Keeps :
        (i : ℕ) (p : Part D) (rest : Stream D) → Keeps (one_part media process i p rest)
    unfolding one_part
    one_part-Keeps i p rest =
        search (keeps_rules, form_data-Keeps, fields-Keeps, in_form-Keeps, expect_end-Keeps) depth
          12

    pub parts-Keeps : (i : ℕ) (s : Stream D) → Keeps (parts media process i s)
    unfolding parts
    parts-Keeps i eof = record {
      at = λ u h.
          if_at-has_nil (leb (length u.form) i) _ _ u (pure-Keeps tt)
            (missing-Keeps (length u.form - i) i) h;
    }
    parts-Keeps i (broken e) = record {
      at = λ u h. if_at-has_nil (leb (length u.form) i) _ _ u (pure-Keeps tt) (error-Keeps _) h;
    }
    parts-Keeps i (part p rest peeked after) = record {
      at = λ u h.
          if_at-has_nil (leb (length u.form) i) _ _ u (pure-Keeps tt)
            (bind-Keeps _ _ (one_part-Keeps i p rest) (λ j. parts-Keeps (j + 1) rest)) h;
    }

module _ {S D : Type 0} where
  or_no_boundary-Keeps : (o : Option String) → Keeps {S = S} {D = D} (or_no_boundary o)
  or_no_boundary-Keeps none = search keeps_rules
  or_no_boundary-Keeps (some b) = search keeps_rules

  boundary_of-Keeps : (m : (String × Dict String) × Bool) → Keeps {S = S} {D = D} (boundary_of m)
  boundary_of-Keeps ((ct, params), false) = search keeps_rules
  boundary_of-Keeps ((ct, params), true) = search (keeps_rules, or_no_boundary-Keeps)

  form_given-Keeps : (fs : List (Field S D)) → Keeps (form_given fs)
  form_given-Keeps [] = search keeps_rules
  form_given-Keeps (f ∷ fs) = search keeps_rules

  expect_form-Keeps : Keeps {S = S} {D = D} expect_form
  expect_form-Keeps = record { at = λ u h. (form_given-Keeps u.form).at u h }

module _ {S D : Type 0} (media : Media D) (codec : Codec) (info : Request → String) (now : ℤ)
    (request_parts : String → Stream D) where
  expect_loaded-Keeps :
      (b : Bool) → Keeps {S = S} (expect_loaded media codec info now request_parts b)
  expect_loaded-Keeps true = search keeps_rules
  expect_loaded-Keeps false = search keeps_rules

  parse_request-Keeps :
      (h : Chunker S) (req : Request)
      → Keeps (parse_request media codec info now request_parts h req)
  unfolding parse_request
  parse_request-Keeps h req =
      search
        (
          keeps_rules, expect_loaded-Keeps, chunk_headers-Keeps, boundary_of-Keeps,
          expect_form-Keeps, parts-Keeps, process_chunk-Keeps,
        )
        depth 24

  -- newCanceler puts the nil function in, whatever was in the list before.
  parse_chunk-has_nil :
      (h : Chunker S) (req : Request) (u : Upload S D)
      → has_nil (parse_chunk media codec info now request_parts h req u).1.cancels ≡ true
  unfolding parse_chunk has_nil
  parse_chunk-has_nil h req u =
      (parse_request-Keeps h req).at (record (fresh_canceler u).1 { file_created = false }) refl

  chunk_answer-panics :
      (errors : Errors) (m : Exit (Unit {0}) × Upload S D) (e : Error)
      → has_nil m.1.cancels ≡ true
      → m.0 ≡ stop (some e)
      → (chunk_answer errors m).0 ≡ panics "invalid memory address or nil pointer dereference"
  unfolding chunk_answer cancel
  chunk_answer-panics errors (go x, u) e h s = absurd (cc)
  chunk_answer-panics errors (stop none, u) e h s = absurd (cc)
  chunk_answer-panics errors (stop (some x), u) e h s =
      let (b, called) = cancel-has_nil u.cancels [] u.session.backends h in rw called refl
  chunk_answer-panics errors (panics msg, u) e h s = absurd (cc)

  -- Whatever error ParseUpload of ChunkHandler returns, ServeHTTP answers no request with it: it calls
  -- the rollbacks first, and panics there.
  pub serve_chunk-panics :
      (errors : Errors) (h : Chunker S) (req : Request) (u : Upload S D) (e : Error)
      → (parse_chunk media codec info now request_parts h req u).0 ≡ stop (some e)
      → (serve_chunk media codec info now request_parts errors h req u).0
        ≡ panics "invalid memory address or nil pointer dereference"
  unfolding serve_chunk
  serve_chunk-panics errors h req u e failed =
      chunk_answer-panics errors _ e (parse_chunk-has_nil h req u) failed
