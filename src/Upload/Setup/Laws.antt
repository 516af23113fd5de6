-- ===== src/Upload/Setup/Laws.antt =====
-- What Chunked makes.
use xhttp.Prelude.{ℕ, ◌≡◌, refl, String, Option, none, some, [], ◌∷◌, ap}
use xhttp.Prelude.Int.{ℤ, pos}
use xhttp.Session.Action.{Result}
use xhttp.Session.Cookie.{Cookie, new_cookie}
use xhttp.Session.Setup.{
  Session, configure as session_configure, set_maxage, set_uuid_generator, server_only, spawn, new,
  with_cookie, with_parent,
}
use xhttp.Upload.Setup.{week, with_session, chunked}

with_cookie-none :
    {S : Type 0} (key : ℕ) (random file_id : S → Result String × S) (secret : String)
    (o : Option Cookie)
    → with_cookie key random "uploads" secret
        (some (set_maxage week) ∷ some (set_uuid_generator file_id) ∷ some server_only ∷ [])
        o
      ≡ none
unfolding session_configure
with_cookie-none key random file_id secret none = refl
with_cookie-none key random file_id secret (some c) = refl

-- Chunked panics whatever it is called with: it asks for a session that is kept on the server alone
-- and gives it no store.
pub chunked-none :
    {S T : Type 0} (now : ℤ) (key : ℕ) (random : S → Result String × S) (h : Session S)
    (file_id : S → Result String × S)
    → chunked {T = T} now key random h file_id ≡ none
unfolding chunked spawn new
chunked-none now key random h file_id =
    ap (λ o. with_session (with_parent h o))
      (with_cookie-none key random file_id h.secret (new_cookie now "uploads" h.secret (pos 0) []))
