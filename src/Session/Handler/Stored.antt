-- ===== src/Session/Handler/Stored.antt =====
-- What a session that is kept in a store reads back.
use xhttp.Prelude.{◌≡◌, String, false, Option, some, if◌then◌else◌, ◌==◌, ◌&&◌}
use xhttp.Prelude.Int.{ℤ, pos, ltb_ℤ}
use xhttp.Session.Cookie.{id as cookie_id}
use xhttp.Session.Action.{ok}
use xhttp.Session.Handler.{Handler, Store, hkey, id, get, put}

-- The entries after one was put under `k` for the session `i`
abbrev pub put_entry :
    String → String → String → (String → String → Option String) → String → String → Option String
put_entry i k v entries j l = if i == j && k == l then some v else entries j l

-- A store keeps what is put into it with a lifetime that is not negative: `find b i k` is the entry
-- for `k` of the session `i` while the store is in the state `b`. An entry that is put with a
-- negative lifetime expires at once, and nothing is assumed of it.
pub record IsStore {S : Type 0} (st : Store S) (find : S → String → String → Option String)
    : Type 0 where
  pub found : (i k v : String) (b : S) → find b i k ≡ some v → st.get i k b ≡ (ok v, b)
  pub kept :
      (i k v : String) (age : ℤ) (b : S)
      → ltb_ℤ age (pos 0) ≡ false
      → (b' : S) × (st.put i k v age b ≡ (ok tt, b'))
        × ((j l : String) → find b' j l ≡ put_entry i k v (find b) j l)

module _ {S : Type 0} (h : Handler S) (st : Store S)
    (find : S → String → String → Option String) where
  abbrev HasEntry : ℤ → S → String → String → String → Type 0
  HasEntry now b i key v = find b i (hkey now h key) ≡ some v
