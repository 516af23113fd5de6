-- ===== src/Upload/Initializer.antt =====
-- handlers/chunkedupload/chunked.go: ServeHTTP of Initializer, which starts the session of an upload.
-- It answers whether the next handler is called.
pub mod Laws
mod Examples
use Prim.Native.String.{◌++◌}
use xhttp.Prelude.{ℕ, String, Bool, true, false, Option, none, some, not, if◌then◌else◌}
use xhttp.Prelude.Int.{ℤ, pos}
use xhttp.Http.{Request, error_response, write}
use xhttp.Session.Action.{
  Error, Result, ok, Tried, done, failed, Action, pure, ◌>>=◌, ◌>>◌, attempt, modify, on_backends,
  on_parent,
}
use xhttp.Session.Codec.{Codec}
use xhttp.Session.Handler.{id, put}
use xhttp.Session.Load.{loaded, generate, save}
use xhttp.Upload.Chunked.{Chunker}

-- *bottleneck.Client. `T` is the type of its tickets.
pub record Bottleneck (S T : Type 0) : Type 0 where
  pub new_bottleneck : String → ℤ → ℤ → S → Result (Unit {0}) × S
  pub new_ticket : String → S → Result T × S
  pub exchange_ticket : String → T → S → Result T × S
  pub winning : T → Bool
  pub marshal : T → Result String

-- The fields of ChunkHandler that Initializer reads beside the sessions.
pub record Init (S T : Type 0) : Type 0 where
  pub handlers : Chunker S
  pub maxage : ℤ
  pub max_concurrency : ℤ
  pub bottleneck : Option (Bottleneck S T)
  pub file_id : S → Result String × S
  pub text : Error → String

abbrev pub ticket_key : String
ticket_key = "uploadticket"

abbrev pub too_many : String
too_many =
    "The maximum number of concurrent uploads has been reached. "
    ++ "Please, wait for an upload to complete and retry."

module _ {S : Type 0} where
  abbrev pub refuse : String → ℕ → Action S Bool
  refuse msg code s = (ok false, record s { res = error_response msg code s.res })

  -- `if err != nil { http.Error(…); return }` after `m`, and what follows otherwise
  abbrev pub or_refuse :
      {A : Type 0} → (Error → String) → ℕ → Tried A → (A → Action S Bool) → Action S Bool
  or_refuse msg code (done a) rest = rest a
  or_refuse msg code (failed e) rest = refuse (msg e) code

  abbrev pub of_result : {A : Type 0} → Result A → Action S A
  of_result r s = (r, s)

  abbrev reply : String → Action S Bool
  reply uploadid = do modify (λ s. record s { res = write uploadid s.res }); pure true

module _ {S T : Type 0} (codec : Codec) (info : Request → String) (now : ℤ) where
  -- The upload session is generated, and the ticket is stored in it.
  unfoldable pub store_ticket :
      Init S T → Bottleneck S T → Request → T → Action S Bool → Action S Bool
  unfolding error_response
  store_ticket i b req t rest = do
    let up = i.handlers.session
    r ← attempt (generate codec info now up (some i.handlers.uploader) req)
    or_refuse (λ e. "Failed to generate new upload session") 500 r
        (λ _. attempt (of_result (b.marshal t)) >>= (λ r'.
          or_refuse (λ e. "Unable to serialize upload permission for storage") 500 r'
            (λ text. attempt (put now up ticket_key text (pos 0)) >>= (λ r''.
              or_refuse (λ e. "Unable to serialize upload permission for storage") 500 r''
                (λ _. rest)))))

  -- `if !t.Winning()`
  abbrev pub with_winning : Init S T → Bottleneck S T → Request → Action S Bool → T → Action S Bool
  with_winning i b req rest t =
      if not (b.winning t) then refuse too_many 429 else store_ticket i b req t rest

  abbrev pub exchanging :
      Init S T → Bottleneck S T → Request → String → Action S Bool → T → Action S Bool
  exchanging i b req user rest t = do
    r ← attempt (on_backends (b.exchange_ticket user t))
    or_refuse (λ e. "Unable to request for upload permission") 500 r (with_winning i b req rest)

  abbrev pub ticketing :
      Init S T → Bottleneck S T → Request → String → Action S Bool → Action S Bool
  ticketing i b req user rest = do
    r ← attempt (on_backends (b.new_ticket user))
    or_refuse (λ e. "Unable to request for upload permission") 500 r (exchanging i b req user rest)

  -- The permission of the bottleneck service
  unfoldable pub permission :
      Init S T → Option (Bottleneck S T) → Request → String → Action S Bool → Action S Bool
  unfolding store_ticket
  permission i none req user rest = rest
  permission i (some b) req user rest = do
    r ← attempt (on_backends (b.new_bottleneck user i.maxage i.max_concurrency))
    or_refuse (λ e. "Unable to reach upload permission server") 500 r
        (λ _. ticketing i b req user rest)

  -- `if !Session.Loaded(ctx) { Generate }`: the request is the one that came.
  unfoldable pub ensure_session : Init S T → Request → Action S Bool → Action S Bool
  unfolding loaded error_response
  ensure_session i req rest =
      if not (loaded i.handlers.session req.ctx)
      then (do
        r ← attempt (generate codec info now i.handlers.session (some i.handlers.uploader) req)
        or_refuse (λ e. "Failed to generate new upload session") 500 r (λ _. rest))
      else rest

  -- The identifier of the upload is bound to a new file identifier and sent.
  unfoldable pub announce : Init S T → Request → Action S Bool
  unfolding id error_response write
  announce i req = do
    let up = i.handlers.session
    r ← attempt (id now up)
    or_refuse
        (λ e.
          "upload session seems to have been ill-instantiated. unable to retrieve upload session id.")
        500 r
        (λ uploadid. attempt (on_backends i.file_id) >>= (λ r'.
          or_refuse (λ e. "Failed to generate file uuid.") 500 r'
            (λ uuid. attempt (put now up uploadid uuid (pos 0)) >>= (λ r''.
              or_refuse (λ e. "Failed to link into session upload id and file UUID") 500 r''
                (λ _. attempt (save codec info now up) >>= (λ r'''.
                  or_refuse (λ e. "Unable to set upload session cookie") 500 r'''
                    (λ _. reply uploadid)))))))

  -- Initializer.ServeHTTP, up to the call of the next handler
  unfoldable pub serve_initializer : Init S T → Request → Action S Bool
  unfolding loaded id permission ensure_session announce error_response
  serve_initializer i req =
      if not (loaded i.handlers.uploader req.ctx)
      then refuse "User session does not seem to have been loaded" 401
      else do
        r ← attempt (on_parent (id now i.handlers.uploader))
        or_refuse i.text 500 r
            (λ user. permission i i.bottleneck req user (ensure_session i req (announce i req)))
