-- ===== src/Session/Handler.antt =====
-- handlers/session/session.go: ID, SetID, Get, Put, Delete, Touch of the session handler. Logging is
-- left out.
pub mod Delete
pub mod Fresh
pub mod Kept
pub mod Stored
mod Examples
use Prim.Native.String.{◌++◌}
use xhttp.Prelude.{ℕ, String, Bool, true, false, Option, none, some, not, if◌then◌else◌, ◌==◌}
use xhttp.Prelude.Int.{ℤ, pos, ltb_ℤ}
use xhttp.Session.Cookie.{
  Cookie, session_validity_key, id as cookie_id, set_id as cookie_set_id, get as cookie_get,
  set as cookie_set, delete as cookie_delete, touch as cookie_touch, time_to_expiry, Ttl, missing,
  crashed, remaining,
}
use xhttp.Session.Action.{
  Error, no_id, bad_session, key_not_found, wraps, foreign, State, Result, ok, Tried, done, failed,
  Action, pure, raise, panic, ◌>>=◌, ◌>>◌, continue, tried, attempt, gets, modify, stored,
  on_backends, changed, on_cookie,
}

-- The interface Store, over the state `S` of all the backends.
pub record Store (S : Type 0) : Type 0 where
  pub get : String → String → S → Result String × S
  pub put : String → String → String → ℤ → S → Result (Unit {0}) × S
  pub delete : String → String → S → Result (Unit {0}) × S
  pub time_to_expiry : String → String → S → Result ℤ × S

-- The interface Cache, as far as the handler calls it.
pub record Cache (S : Type 0) : Type 0 where
  pub get : String → String → S → Result String × S
  pub put : String → String → String → ℤ → S → Result (Unit {0}) × S

-- Handler, without its cookie, which is a part of the state, and without its parent.
pub record Handler (S : Type 0) : Type 0 where
  pub name : String
  pub server_only : Bool
  pub context_key : ℕ
  pub store : Option (Store S)
  pub cache : Option (Cache S)
  pub uuidgen : S → Result String × S

module _ {S : Type 0} (now : ℤ) (h : Handler S) where
  -- h.Name + "/" + key
  abbrev pub hkey : String → String
  hkey key = h.name ++ "/" ++ key

  -- ID: the cookie's ID never fails.
  unfoldable pub id : Action S String
  id = gets (λ s. (cookie_id s.cookie).0)

  -- SetID
  unfoldable pub set_id : String → Action S (Unit {0})
  set_id i =
      modify
        (λ s. record s { cookie = record (cookie_set_id now i s.cookie) { apply_mods = true } })

  abbrev max_age : Action S ℤ
  max_age = gets (λ s. s.cookie.http_cookie.max_age)

  -- A write to the cache, whose error is only logged.
  unfoldable pub cache_put : Option (Cache S) → String → String → String → ℤ → Action S (Unit {0})
  cache_put none i key value maxage = pure tt
  cache_put (some c) i key value maxage = do
    attempt (on_backends (c.put i (hkey key) value maxage))
    pure tt

  abbrev or_bad_session : {A : Type 0} → Tried A → Action S A
  or_bad_session (done a) = pure a
  or_bad_session (failed e) = raise (wraps bad_session e)

  -- The check of the session's validity entry in the store.
  unfoldable pub check_valid : Store S → String → Action S (Unit {0})
  check_valid st i = do
    found ← attempt (on_backends (st.get i (hkey session_validity_key)))
    or_bad_session found
    pure tt

  -- The renewal of the validity entry, whose error is only logged.
  unfoldable pub renew : Store S → String → Action S (Unit {0})
  renew st i = do
    age ← max_age
    if not (ltb_ℤ (pos 0) age)
        then pure tt
        else do attempt (on_backends (st.put i (hkey session_validity_key) "true" age)); pure tt

  unfoldable pub put_store : Store S → String → String → String → ℤ → Action S (Unit {0})
  put_store st i key value maxage = do
    check_valid st i
    on_backends (st.put i (hkey key) value maxage)
    on_cookie (cookie_touch now)
    renew st i
    cache_put h.cache i key value maxage

  unfoldable pub put_cookie : String → String → String → ℤ → Action S (Unit {0})
  put_cookie i key value maxage = do
    on_cookie (cookie_set now key value maxage)
    if key == session_validity_key then pure tt else on_cookie (cookie_touch now)
    cache_put h.cache i key value maxage

  abbrev server_only_panic : {A : Type 0} → Action S A
  server_only_panic = panic "error: serveronly session with no server storage"

  unfoldable pub put_at : Option (Store S) → String → String → String → ℤ → Action S (Unit {0})
  put_at (some st) i key value maxage = put_store st i key value maxage
  put_at none i key value maxage =
      if h.server_only then server_only_panic else put_cookie i key value maxage

  -- Put
  unfoldable pub put : String → String → ℤ → Action S (Unit {0})
  put key value maxage = do i ← id; put_at h.store i key value maxage

  -- Touch
  unfoldable pub touch : Action S (Unit {0})
  touch = if not h.server_only then on_cookie (cookie_touch now) else do
    age ← max_age
    if ltb_ℤ (pos 0) age then put session_validity_key "true" age else pure tt

  abbrev cache_for : String → String → String → Tried ℤ → Action S String
  cache_for i key res (failed e) = pure res
  cache_for i key res (done maxage) = do cache_put h.cache i key res maxage; pure res

  abbrev cache_stored : Option (Cache S) → Store S → String → String → String → Action S String
  cache_stored none st i key res = pure res
  cache_stored (some c) st i key res = do
    maxage ← attempt (on_backends (st.time_to_expiry i (hkey key)))
    cache_for i key res maxage

  unfoldable pub get_store : Store S → String → String → Action S String
  get_store st i key = do
    check_valid st i
    attempt touch
    res ← on_backends (st.get i (hkey key))
    cache_stored h.cache st i key res

  -- The cookie's Get, which may drop an expired entry.
  unfoldable pub take_cookie : String → Action S (Option String)
  take_cookie key s = let (v, c) = cookie_get now key s.cookie in (ok v, record s { cookie = c })

  take_ttl : String → Action S Ttl
  take_ttl key s = let (t, c) = time_to_expiry now key s.cookie in (ok t, record s { cookie = c })

  cache_for_ttl : String → String → String → Ttl → Action S String
  cache_for_ttl i key res missing = pure res
  cache_for_ttl i key res crashed = panic "invalid memory address or nil pointer dereference"
  cache_for_ttl i key res (remaining t) = do cache_put h.cache i key res t; pure res

  unfoldable pub cache_taken : Option (Cache S) → String → String → String → Action S String
  unfolding take_ttl cache_for_ttl cache_put
  cache_taken none i key res = pure res
  cache_taken (some c) i key res = do t ← take_ttl key; cache_for_ttl i key res t

  unfoldable pub get_taken : String → String → Option String → Action S String
  get_taken i key none = raise key_not_found
  get_taken i key (some res) = do attempt touch; cache_taken h.cache i key res

  unfoldable pub get_cookie : String → String → Action S String
  get_cookie i key = do v ← take_cookie key; get_taken i key v

  unfoldable pub get_uncached : Option (Store S) → String → String → Action S String
  unfolding get_store check_valid cache_put
  get_uncached (some st) i key = get_store st i key
  get_uncached none i key = if h.server_only then server_only_panic else get_cookie i key

  abbrev or_uncached : String → String → Tried String → Action S String
  or_uncached i key (done res) = pure res
  or_uncached i key (failed e) = get_uncached h.store i key

  unfoldable pub get_at : Option (Cache S) → String → String → Action S String
  get_at none i key = get_uncached h.store i key
  get_at (some c) i key = do
    cached ← attempt (on_backends (c.get i (hkey key)))
    or_uncached i key cached

  -- Get
  unfoldable pub get : String → Action S String
  get key = do i ← id; get_at h.cache i key

  abbrev delete_valid : Store S → String → String → Tried (Unit {0}) → Action S (Unit {0})
  delete_valid st i key (failed e) = pure tt
  delete_valid st i key (done _) = do
    on_backends (st.delete i (hkey key))
    attempt touch
    renew st i

  unfoldable pub delete_at : Option (Store S) → String → String → Action S (Unit {0})
  unfolding check_valid renew
  delete_at (some st) i key = do valid ← attempt (check_valid st i); delete_valid st i key valid
  delete_at none i key =
      if h.server_only
      then server_only_panic
      else do modify (λ s. record s { cookie = cookie_delete key s.cookie }); attempt touch; pure tt

  -- The call of h.Cache.Delete that stands under `if h.Cache == nil`.
  unfoldable pub cache_delete : Option (Cache S) → Action S (Unit {0})
  cache_delete none = panic "invalid memory address or nil pointer dereference"
  cache_delete (some c) = pure tt

  -- Delete
  unfoldable pub delete : String → Action S (Unit {0})
  delete key = do i ← id; cache_delete h.cache; delete_at h.store i key
