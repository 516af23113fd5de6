-- ===== src/Upload/Setup.antt =====
-- handlers/chunkedupload/chunked.go: Chunked, Configure and its options. `none` is a panic.
pub mod Laws
use xhttp.Prelude.{
  ℕ, ◌≡◌, refl, String, Bool, Option, none, some, List, [], ◌∷◌, Option-cases, inl, inr, ap,
}
use xhttp.Prelude.Int.{ℤ, pos}
use xhttp.Session.Action.{Result}
use xhttp.Session.Cookie.{Cookie, new_cookie}
use xhttp.Session.Setup.{
  Session, Configuration, configure as session_configure, set_maxage, set_uuid_generator,
  server_only, spawn, new, with_cookie, with_parent,
}
use xhttp.Upload.Initializer.{Bottleneck}

-- ChunkHandler, beside its embedded Handler
pub record ChunkSettings (S T : Type 0) : Type 0 where
  pub session : Session S
  pub maxage : ℤ
  pub max_concurrency : ℤ
  pub bottleneck : Option (Bottleneck S T)

-- 7*24*60*60
abbrev pub week : ℤ
week = pos 604800

module _ {S T : Type 0} where
  abbrev pub with_session : Option (Session S) → Option (ChunkSettings S T)
  with_session none = none
  with_session (some s) =
      some (record { session = s; maxage = week; max_concurrency = pos 1; bottleneck = none })

  -- Chunked, with the session of the upload handler and its generator of file identifiers. The name
  -- and the options of the session of the uploads do not depend on the caller.
  unfoldable pub chunked :
      ℤ
      → ℕ
      → (S → Result String × S)
      → Session S
      → (S → Result String × S)
      → Option (ChunkSettings S T)
  unfolding spawn
  chunked now key random h file_id = with_session (
      spawn now key random h "uploads"
        (some (set_maxage week) ∷ some (set_uuid_generator file_id) ∷ some server_only ∷ []))

  -- ChunkHandler.Configure
  unfoldable pub configure :
      List (ChunkSettings S T → ChunkSettings S T) → ChunkSettings S T → ChunkSettings S T
  configure [] c = c
  configure (f ∷ functions) c = configure functions (f c)

  -- SetSessionMaxAge
  unfoldable pub set_session_max_age : ℤ → ChunkSettings S T → ChunkSettings S T
  unfolding session_configure
  set_session_max_age maxage c = record c {
    session = session_configure (some (set_maxage maxage) ∷ []) c.session;
    maxage = maxage;
  }

  -- SetMaxConcurrency
  abbrev pub set_max_concurrency :
      ℤ → Option (Bottleneck S T) → ChunkSettings S T → ChunkSettings S T
  set_max_concurrency n limiter c = record c { max_concurrency = n; bottleneck = limiter }

  -- SetUploadIDgenerator
  unfoldable pub set_upload_id_generator :
      (S → Result String × S) → ChunkSettings S T → ChunkSettings S T
  unfolding session_configure
  set_upload_id_generator uuid_fn c = record c {
    session = session_configure (some (set_uuid_generator uuid_fn) ∷ []) c.session;
  }
