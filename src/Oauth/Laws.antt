-- ===== src/Oauth/Laws.antt =====
-- When the login is completed.
use xhttp.Prelude.{◌≡◌, refl, ap, sym, String, none, some, ◌==◌, Bool-cases, inl, inr, eq_iff}
use xhttp.Prelude.Int.{ℤ}
use xhttp.Session.Action.{State, Result, ok, err, crash, continue, tried, attempt, stored}
use xhttp.Session.Handler.{Handler, get, delete}
use xhttp.Session.Handler.Delete.{delete-crash}
use xhttp.Csrf.Laws.{continue-ok}
use xhttp.Oauth.{Provider, callback_serve, with_state, exchanged, with_token}

module _ {S T : Type 0} (provider : Provider S T) where
  -- The state in the session is the one in the form, and the code in the form was exchanged for the
  -- token.
  abbrev pub Confirms : (String → String) → Result String → T → Type 0
  Confirms form stored tok =
      (stored ≡ ok (form "state")) × (b : S) × ((provider.exchange (form "code") b).0 ≡ ok tok)

  stored-some :
      (s : State S) (r : Result T × S) {tok : T}
      → (continue (tried (stored s r)) (with_token provider)).0 ≡ ok (some tok)
      → r.0 ≡ ok tok
  stored-some s (ok t, b) e = cc
  stored-some s (err x, b) e = absurd (cc)
  stored-some s (crash x, b) e = absurd (cc)

  exchanged-some :
      (form : String → String) (s : State S) {tok : T}
      → (exchanged provider form s).0 ≡ ok (some tok)
      → (b : S) × ((provider.exchange (form "code") b).0 ≡ ok tok)
  exchanged-some form s e =
      (s.backends, stored-some s (provider.exchange (form "code") s.backends) e)

  with_state-some :
      (now : ℤ) (h : Handler S) (form : String → String) (r : Result String × State S) {tok : T}
      → (continue (tried r) (with_state provider now h form)).0 ≡ ok (some tok)
      → Confirms form r.0 tok
  with_state-some now h form (ok state, s) e = elim (Bool-cases (form "state" == state)) [
    | inl same ↦
        let (d, s', e') = continue-ok (attempt (delete now h "oauthstate") s) _ (rw same at e) in
        let (b, got) = exchanged-some form s' e' in
        (ap ok (sym ((eq_iff (form "state") state).0 same)), b, got)
    | inr other ↦
        let (d, s', e') = continue-ok (attempt (delete now h "oauthstate") s) _ (rw other at e) in
        absurd (cc)
  ]
  with_state-some now h form (err x, s) e = absurd (cc)
  with_state-some now h form (crash x, s) e = absurd (cc)

  -- The next handler is called only if the state in the form is the one that the session has under
  -- oauthstate, and with the token that the provider gave for the code in the form.
  pub callback_serve-Confirms :
      (now : ℤ) (h : Handler S) (form : String → String) (s : State S) (tok : T)
      → (callback_serve provider now h form s).0 ≡ ok (some tok)
      → Confirms form (get now h "oauthstate" s).0 tok
  unfolding callback_serve
  callback_serve-Confirms now h form s tok e =
      with_state-some now h form (get now h "oauthstate" s) e

  -- With no cache the callback panics as soon as the session has the state: no login is completed.
  pub callback_serve-crash :
      (now : ℤ) (h : Handler S) (form : String → String) (s s' : State S) (state : String)
      → h.cache ≡ none
      → get now h "oauthstate" s ≡ (ok state, s')
      → callback_serve provider now h form s
        ≡ (crash "invalid memory address or nil pointer dereference", s')
  unfolding callback_serve
  callback_serve-crash now h form s s' state no_cache found =
      rw (found, delete-crash now h "oauthstate" s' no_cache) refl
