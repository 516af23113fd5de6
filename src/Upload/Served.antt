-- ===== src/Upload/Served.antt =====
-- Which requests reach the handlers after the upload handlers.
use xhttp.Prelude.{◌≡◌, refl, String, false, none, some, List, ◌∷◌}
use xhttp.Prelude.Int.{ℤ}
use xhttp.Http.{Request, get_header}
use xhttp.Session.Action.{wraps, foreign, on_parent}
use xhttp.Session.Codec.{Codec}
use xhttp.Session.Handler.{id}
use xhttp.Session.Load.{load, loaded, load_server_only}
use xhttp.Upload.Form.{Field}
use xhttp.Upload.Parts.{
  Stream, Media, Upload, Exit, go, stop, panics, attempt, or_return, parsing_failed,
}
use xhttp.Upload.Accepted.{go_on-go, body-go, HasShortBody}
use xhttp.Upload.Files.{Config, process}
use xhttp.Upload.Serve.{Uploader, Errors, fresh_canceler, parse_upload, serve_http, answer}
use xhttp.Upload.Chunked.{
  Chunker, expect_loaded, chunk_headers, process_chunk, parse_request, parse_chunk,
}

module _ {S D : Type 0} (media : Media D) (codec : Codec) (info : Request → String) (now : ℤ)
    (request_parts : String → Stream D) where
  pub parse_upload-go :
      (h : Uploader S) (req : Request) (u : Upload S D) {x : Unit {0}}
      → (parse_upload media codec info now request_parts h req u).0 ≡ go x
      → HasShortBody request_parts (media.parse_media (get_header "Content-Type" req.header))
  unfolding parse_upload
  parse_upload-go h req u e =
      let (a, u1, m1, e1) =
        go_on-go (attempt (load codec info now h.session h.parent req) (fresh_canceler u).1) _ e in
      let (b, u2, m2, e2) =
        go_on-go
          (or_return (λ e. wraps parsing_failed (wraps (foreign "Unable to load session") e)) a u1)
          _ e1 in
      let (c, u3, m3, e3) = go_on-go (attempt (id now h.session) u2) _ e2 in
      let (d, u4, m4, e4) =
        go_on-go
          (or_return (λ e. wraps parsing_failed (wraps (foreign "No session ID found.") e)) c u3) _
          e3 in
      let config : Config S = record { uploader_id = d; file_id = h.file_id } in
      body-go media (process media config) request_parts
        (media.parse_media (get_header "Content-Type" req.header)) u4 e4

  parse_chunk-go :
      (h : Chunker S) (req : Request) (u : Upload S D) {x : Unit {0}}
      → (parse_chunk media codec info now request_parts h req u).0 ≡ go x
      → HasShortBody request_parts (media.parse_media (get_header "Content-Type" req.header))
  unfolding parse_chunk parse_request
  parse_chunk-go h req u e =
      let u0 : Upload S D = record (fresh_canceler u).1 { file_created = false } in
      let (x, u1, m1, e1) =
        go_on-go (expect_loaded media codec info now request_parts (loaded h.uploader req.ctx) u0) _
          e in
      let (a, u2, m2, e2) = go_on-go (attempt (on_parent (id now h.uploader)) u1) _ e1 in
      let (b, u3, m3, e3) =
        go_on-go
          (or_return (λ e. wraps parsing_failed (wraps (foreign "No session ID found.") e)) a u2) _
          e2 in
      let (c, u4, m4, e4) = go_on-go (chunk_headers req u3) _ e3 in
      let (r, u5, m5, e5) =
        go_on-go
          (attempt (load_server_only codec info now req c.upload_id h.session (some h.uploader)) u4)
          _ e4 in
      let (y, u6, m6, e6) = go_on-go (or_return (wraps parsing_failed) r u5) _ e5 in
      body-go media (process_chunk media now h.session b c) request_parts
        (media.parse_media (get_header "Content-Type" req.header)) u6 e6

  answer-some :
      (errors : Errors) (m : Exit (Unit {0}) × Upload S D) {f : Field S D} {fs : List (Field S D)}
      → (answer errors m).0 ≡ go (some (f ∷ fs))
      → m.0 ≡ go tt
  unfolding answer
  answer-some errors (go x, u) e = refl
  answer-some errors (stop none, u) e = absurd (cc)
  answer-some errors (stop (some x), u) e = absurd (cc)
  answer-some errors (panics msg, u) e = absurd (cc)

  -- The next handler gets a form with a field only for a request with a boundary and with one part at
  -- most, however many fields the form has.
  pub serve_http-HasShortBody :
      (errors : Errors) (h : Uploader S) (req : Request) (u : Upload S D) (f : Field S D)
      (fs : List (Field S D))
      → (serve_http media codec info now request_parts errors h req u).0 ≡ go (some (f ∷ fs))
      → HasShortBody request_parts (media.parse_media (get_header "Content-Type" req.header))
  unfolding serve_http
  serve_http-HasShortBody errors h req u f fs e = parse_upload-go h req u (answer-some errors _ e)
