-- ===== src/Session/Handler/Fresh.antt =====
-- Put into a store that has no validity entry for the session.
use xhttp.Prelude.{◌≡◌, String, some}
use xhttp.Prelude.Int.{ℤ}
use xhttp.Session.Cookie.{session_validity_key, id as cookie_id}
use xhttp.Session.Action.{Error, bad_session, wraps, State, err}
use xhttp.Session.Handler.{Handler, Store, hkey, id, put, put_at, put_store, check_valid}

module _ {S : Type 0} (now : ℤ) (h : Handler S) where
  -- Put fails where the store cannot read the validity entry, and writes nothing.
  pub put-invalid :
      (st : Store S) (key value : String) (maxage : ℤ) (s : State S) (e : Error) (b : S)
      → h.store ≡ some st
      → st.get (cookie_id s.cookie).0 (hkey now h session_validity_key) s.backends ≡ (err e, b)
      → put now h key value maxage s ≡ (err (wraps bad_session e), record s { backends = b })
  unfolding put id put_at put_store check_valid
  put-invalid st key value maxage s e b hs he = rw (hs, he)
