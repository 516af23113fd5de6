-- ===== src/Session/Load/Generate.antt =====
-- What Generate does with a store that knows nothing of the new id.
use xhttp.Prelude.{◌≡◌, refl, String, Option, some, [], true}
use xhttp.Prelude.Dict.{insert, lookup}
use xhttp.Prelude.Int.{ℤ}
use xhttp.Http.{Request}
use xhttp.Session.Cookie.{Cookie, session_validity_key, id as cookie_id, set_id as cookie_set_id}
use xhttp.Session.Codec.{Codec}
use xhttp.Session.Action.{Error, bad_session, wraps, foreign, State, ok, err}
use xhttp.Session.Handler.{Handler, Store, hkey, set_id}
use xhttp.Session.Handler.Fresh.{put-invalid}
use xhttp.Session.Load.{generate}

module _ {S : Type 0} (codec : Codec) (info : Request → String) (now : ℤ) (h : Handler S) where
  -- The cookie after its entries are cleared and the id is set.
  abbrev fresh : String → Cookie → Cookie
  fresh i c = record (cookie_set_id now i (record c { values = [] })) { apply_mods = true }

  id-fresh : (i : String) (c : Cookie) → (cookie_id (fresh i c)).0 ≡ i
  unfolding cookie_id cookie_set_id insert lookup
  id-fresh i c = refl

  -- With a store, Generate fails for every new id whose validity entry the store cannot read: it
  -- creates that entry through Put, and Put wants the entry to be there.
  pub generate-fails :
      (parent : Option (Handler S)) (req : Request) (s : State S) (st : Store S) (i : String)
      (e : Error) (b b' : S)
      → h.store ≡ some st
      → h.uuidgen s.backends ≡ (ok i, b)
      → st.get i (hkey now h session_validity_key) b ≡ (err e, b')
      → (generate codec info now h parent req s).0
        ≡ err (wraps (foreign "Failed to generate new session.") (wraps bad_session e))
  generate-fails parent req s st i e b b' hs hu he =
      let t : State S = record s { backends = b; cookie = fresh i s.cookie } in
      let p =
        put-invalid now h st session_validity_key "true" t.cookie.http_cookie.max_age t e b' hs
          (rw (id-fresh i s.cookie) he) in
      (unfold generate set_id in rw (hu, p))
