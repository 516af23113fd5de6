-- ===== src/Session/Action.antt =====
-- Methods of the session handler as actions: they read and change the session cookie, the server's
-- stores and caches and the response, and return a value, an error, or panic. What was written
-- before an error or a panic stays written.
use xhttp.Prelude.{String, Option, none, some}
use xhttp.Http.{Response}
use xhttp.Session.Cookie.{Cookie}

-- session.go: the package's errors; `wraps e f` is e.Wraps(f), `foreign` an error of another package.
pub data Error : Type 0 where
  no_id bad_session bad_cookie key_not_found parent_invalid : Error
  foreign : String → Error
  wraps : Error → Error → Error

-- `S` is the state of all the stores and caches together. `parent_cookie` is the cookie of the
-- parent session's handler.
pub record State (S : Type 0) : Type 0 where
  pub cookie : Cookie
  pub parent_cookie : Cookie
  pub backends : S
  pub res : Response

pub data Result (A : Type 0) : Type 0 where
  ok : A → Result A
  err : Error → Result A
  crash : String → Result A

-- A call whose error the caller looks at.
pub data Tried (A : Type 0) : Type 0 where
  done : A → Tried A
  failed : Error → Tried A

abbrev pub Action : Type 0 → Type 0 → Type 0
Action S A = State S → Result A × State S

module _ {S : Type 0} where
  abbrev pub pure : {A : Type 0} → A → Action S A
  pure a s = (ok a, s)

  abbrev pub raise : {A : Type 0} → Error → Action S A
  raise e s = (err e, s)

  abbrev pub panic : {A : Type 0} → String → Action S A
  panic msg s = (crash msg, s)

  abbrev pub continue : {A B : Type 0} → Result A × State S → (A → Action S B) → Result B × State S
  continue (ok a, s) f = f a s
  continue (err e, s) f = (err e, s)
  continue (crash msg, s) f = (crash msg, s)

  infixl 5 ◌>>=◌ ◌>>◌
  abbrev pub ◌>>=◌ : {A B : Type 0} → Action S A → (A → Action S B) → Action S B
  ◌>>=◌ m f s = continue (m s) f

  abbrev pub ◌>>◌ : {A B : Type 0} → Action S A → Action S B → Action S B
  ◌>>◌ m k s = continue (m s) (λ _. k)

  abbrev pub tried : {A : Type 0} → Result A × State S → Result (Tried A) × State S
  tried (ok a, s) = (ok (done a), s)
  tried (err e, s) = (ok (failed e), s)
  tried (crash msg, s) = (crash msg, s)

  -- `v, err := m`
  abbrev pub attempt : {A : Type 0} → Action S A → Action S (Tried A)
  attempt m s = tried (m s)

  abbrev pub gets : {A : Type 0} → (State S → A) → Action S A
  gets f s = (ok (f s), s)

  abbrev pub modify : (State S → State S) → Action S (Unit {0})
  modify f s = (ok tt, f s)

  abbrev pub stored : {A : Type 0} → State S → Result A × S → Result A × State S
  stored s (r, b) = (r, record s { backends = b })

  -- A call of a store or a cache.
  abbrev pub on_backends : {A : Type 0} → (S → Result A × S) → Action S A
  on_backends f s = stored s (f s.backends)

  abbrev pub changed : State S → Option Cookie → Result (Unit {0}) × State S
  changed s none = (crash "session cookie", s)
  changed s (some c) = (ok tt, record s { cookie = c })

  -- A call of a method of the cookie that can panic.
  abbrev pub on_cookie : (Cookie → Option Cookie) → Action S (Unit {0})
  on_cookie f s = changed s (f s.cookie)

  abbrev pub swapped : State S → State S
  swapped s = record s { cookie = s.parent_cookie; parent_cookie = s.cookie }

  abbrev pub swapped_back : {A : Type 0} → Result A × State S → Result A × State S
  swapped_back (r, s) = (r, swapped s)

  -- A method of the parent session's handler.
  abbrev pub on_parent : {A : Type 0} → Action S A → Action S A
  on_parent m s = swapped_back (m (swapped s))
