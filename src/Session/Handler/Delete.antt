-- ===== src/Session/Handler/Delete.antt =====
-- What Delete does: with no cache, and for a key that the cache holds.
use xhttp.Prelude.{◌≡◌, ◌≢◌, refl, ◌∙◌, String, false, Option, none, some}
use xhttp.Prelude.Int.{ℤ}
use xhttp.Session.Cookie.{Cookie, id as cookie_id, delete as cookie_delete, touch as cookie_touch}
use xhttp.Session.Lifetime.{id-touch, id-delete}
use xhttp.Session.Action.{State, Result, ok, err, crash, changed, continue, tried}
use xhttp.Session.Handler.{
  Handler, Cache, hkey, id, get, delete, touch, cache_delete, delete_at, get_at,
}

state_after :
    {S A : Type 0} (r : Result A × State S)
    → (continue {B = Unit {0}} (tried r) (λ _ s. (ok tt, s))).1 ≡ (tried r).1
state_after (ok a, s) = refl
state_after (err e, s) = refl
state_after (crash msg, s) = refl

module _ {S : Type 0} (now : ℤ) (h : Handler S) where
  -- Without a cache, Delete panics in every state and for every key, and deletes nothing.
  pub delete-crash :
      (key : String) (s : State S)
      → h.cache ≡ none
      → delete now h key s ≡ (crash "invalid memory address or nil pointer dereference", s)
  unfolding delete id cache_delete
  delete-crash key s e = rw e

  -- The parts of the state that the next call of Get looks at.
  abbrev Same : State S → State S → Type 0
  Same s t = (t.backends ≡ s.backends) × (cookie_id t.cookie ≡ cookie_id s.cookie)

  Same-touch : (t : State S) → h.server_only ≡ false → Same t (tried (touch now h t)).1
  Same-touch t e = by_touch (cookie_touch now t.cookie) refl
    where
      shown : touch now h t ≡ changed t (cookie_touch now t.cookie)
      shown = (unfold touch in rw e)

      by_touch :
          (o : Option Cookie) → cookie_touch now t.cookie ≡ o → Same t (tried (touch now h t)).1
      by_touch none f = rw (shown, f) (refl, refl)
      by_touch (some c) f = rw (shown, f) (refl, id-touch now t.cookie f)

  Same-delete_at :
      (i key : String) (s : State S)
      → h.server_only ≡ false
      → key ≢ "id"
      → Same s (delete_at now h none i key s).1
  Same-delete_at i key s e ne =
      let t : State S = record s { cookie = cookie_delete key s.cookie } in
      let (b, c) = Same-touch t e in
      let shown : (delete_at now h none i key s).1 ≡ (tried (touch now h t)).1 =
        (unfold delete_at in simp e (state_after (touch now h t))) in
      rw shown (b, c ∙ id-delete key s.cookie ne)

  get-cached :
      (c : Cache S) (key v : String) (s : State S) {b : S}
      → h.cache ≡ some c
      → c.get (cookie_id s.cookie).0 (hkey now h key) s.backends ≡ (ok v, b)
      → (get now h key s).0 ≡ ok v
  unfolding get id get_at
  get-cached c key v s hc e = rw (hc, e)

-- With a cache and without a store, a deleted key can still be read while the cache holds it:
-- Delete touches no cache, and Get answers from the cache first.
pub get-delete-cached :
    {S : Type 0} (now later : ℤ) (h : Handler S) (c : Cache S) (key v : String) (s : State S)
    {b : S}
    → h.cache ≡ some c
    → h.store ≡ none
    → h.server_only ≡ false
    → key ≢ "id"
    → c.get (cookie_id s.cookie).0 (hkey now h key) s.backends ≡ (ok v, b)
    → (get later h key (delete now h key s).1).0 ≡ ok v
get-delete-cached now later h c key v s {b = b'} hc hs ho ne e =
    let shown : (delete now h key s).1 ≡ (delete_at now h none (cookie_id s.cookie).0 key s).1 =
      (unfold delete id cache_delete in rw (hc, hs)) in
    let (b, i) = Same-delete_at now h (cookie_id s.cookie).0 key s ho ne in
    get-cached later h c key v (delete now h key s).1 {b = b'} hc (rw (shown, b, i) e)
