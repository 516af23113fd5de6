-- ===== src/Session/Setup/Laws.antt =====
-- What the options give, and what Enforcer stops.
use xhttp.Prelude.{
  ◌++◌, ◌∙◌, ap, ℕ, ◌≡◌, String, true, Option, none, some, List, [], ◌∷◌, is_some, arith,
}
use xhttp.Prelude.Int.{ℤ, pos}
use xhttp.Http.{Request, Exchange, Handler as HttpHandler, http_error, returned, ◌>>=◌}
use xhttp.Linker.{link, serve, linkable_handler}
use xhttp.Session.Codec.{Codec}
use xhttp.Session.Cookie.{Cookie, new_cookie}
use xhttp.Session.Action.{Error, State, Result, ok, err}
use xhttp.Session.Setup.{
  Session, Configuration, new, with_cookie, checked, enforcer, enforce, enforced, load_at,
}

module _ {S : Type 0} (codec : Codec) (info : Request → String) (now : ℤ) where
  -- The sessions load one after the other, from the back ends `b` and the response of `x` to the back
  -- ends `b'` and the response of `y`.
  abbrev pub Load : List (Session S) → S → Exchange → S → Exchange → Type 0
  Load [] b x b' y = (b ≡ b') × (x ≡ y)
  Load (s ∷ sessions) b x b' y =
      (t : State S) × (load_at codec info now b s x ≡ (ok tt, t))
      × Load sessions t.backends (record x { res = t.res }) b' y

  enforce-err :
      (before after : List (Session S)) (s : Session S) (b b' : S) (x y : Exchange) (e : Error)
      (t : State S)
      → Load before b x b' y
      → load_at codec info now b' s y ≡ (err e, t)
      → enforce codec info now (before ++ s ∷ after) b x
        ≡ returned
            (http_error "Some session credentials are missing" 401 (record y { res = t.res }))
  unfolding enforce
  enforce-err [] after s b b' x y e t (same, same') failed =
      ap
        (λ z.
          enforced codec info now (enforce codec info now after) z (load_at codec info now b s z))
        same'
      ∙ ap (enforced codec info now (enforce codec info now after) y)
          (ap (λ a. load_at codec info now a s y) same ∙ failed)
  enforce-err (r ∷ before) after s b b' x y e t (u, loads, rest) failed =
      ap (enforced codec info now (enforce codec info now (before ++ s ∷ after)) x) loads
      ∙ enforce-err before after s u.backends b' (record x { res = u.res }) y e t rest failed

  -- The handler that is linked to Enforcer is called although one of the listed sessions, wherever it
  -- stands, is missing: when the sessions before it have loaded, the answer 401 is written, and the
  -- request goes on with it. The sessions after it are not loaded.
  pub enforcer-err :
      (before after : List (Session S)) (s : Session S) (b b' : S) (next : HttpHandler)
      (x y : Exchange) (e : Error) (t : State S)
      → Load before b x b' y
      → load_at codec info now b' s y ≡ (err e, t)
      → serve (link (enforcer codec info now (before ++ s ∷ after) b) next) x
        ≡ next (http_error "Some session credentials are missing" 401 (record y { res = t.res }))
  unfolding enforcer linkable_handler
  enforcer-err before after s b b' next x y e t loads failed =
      ap (λ o. o >>= next) (enforce-err before after s b b' x y e t loads failed)

-- A session that New returns and that keeps its data on the server alone has a store.
checked-IsStored :
    {S : Type 0} (h : Session S) {h' : Session S}
    → checked h ≡ some h'
    → h'.handler.server_only ≡ true
    → is_some h'.handler.store ≡ true
checked-IsStored h e only = ground arith

with_cookie-IsStored :
    {S : Type 0} (key : ℕ) (random : S → Result String × S) (name secret : String)
    (options : List (Option (Configuration S))) (o : Option Cookie) {h : Session S}
    → with_cookie key random name secret options o ≡ some h
    → h.handler.server_only ≡ true
    → is_some h.handler.store ≡ true
with_cookie-IsStored key random name secret options none e only = absurd (cc)
with_cookie-IsStored key random name secret options (some c) e only = checked-IsStored _ e only

pub new-IsStored :
    {S : Type 0} (now : ℤ) (key : ℕ) (random : S → Result String × S) (name secret : String)
    (options : List (Option (Configuration S))) (h : Session S)
    → new now key random name secret options ≡ some h
    → h.handler.server_only ≡ true
    → is_some h.handler.store ≡ true
unfolding new
new-IsStored now key random name secret options h e only =
    with_cookie-IsStored key random name secret options (new_cookie now name secret (pos 0) []) e
      only
