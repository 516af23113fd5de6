-- ===== src/Session/Handler/Kept.antt =====
-- What a session that is kept in the cookie alone reads back.
use xhttp.Prelude.{
  ◌≡◌, ◌≢◌, refl, sym, ◌∙◌, ap, String, true, false, Option, none, some, eq_iff, eq_refl,
  Option-cases, inl, inr, ◌==◌, arith,
}
use xhttp.Prelude.Int.{ℤ}
use xhttp.Session.Cookie.{
  Cookie, id as cookie_id, session_validity_key, get as cookie_get, set as cookie_set,
  touch as cookie_touch,
}
use xhttp.Session.Lifetime.{readable, deadline, get-set, set-none_iff}
use xhttp.Session.Action.{key_not_found, State, Result, ok, err}
use xhttp.Session.Handler.{
  Handler, id, get, put, put_at, put_cookie, cache_put, touch, get_at, get_uncached, get_cookie,
  get_taken, cache_taken, take_cookie,
}

validity-ne-id : session_validity_key ≢ "id"
validity-ne-id e = let t : false ≡ true = (eq_iff session_validity_key "id").1 e in cc

-- Touch on a cookie never panics.
pub cookie_touch-some : (now : ℤ) (c : Cookie) → (c' : Cookie) × (cookie_touch now c ≡ some c')
unfolding cookie_touch
cookie_touch-some now c = elim (Option-cases (cookie_touch now c)) [
  | inl e ↦
      absurd (
        validity-ne-id ((set-none_iff now session_validity_key "true" c.http_cookie.max_age c).0 e))
  | inr found ↦ found
]

-- What Get answers for what the cookie has.
abbrev pub found_or_missing : Option String → Result String
found_or_missing none = err key_not_found
found_or_missing (some v) = ok v

pub different : (a b : String) → a ≢ b → (a == b) ≡ false
different a b ne = grind (arith, eq_iff)

-- What is read after a value was set and the cookie was touched.
readable-touched :
    (now later : ℤ) (key v : String) (maxage : ℤ) (c : Cookie) {c' c'' : Cookie}
    → key ≢ session_validity_key
    → cookie_set now key v maxage c ≡ some c'
    → cookie_touch now c' ≡ some c''
    → (cookie_get later key c'').0
      ≡ readable v later maxage (deadline c.http_cookie.max_age now maxage)
unfolding cookie_touch
readable-touched now later key v maxage c {c'} {c''} ne e f =
    get-set now session_validity_key "true" c'.http_cookie.max_age c' later key f
    ∙ rw (
      different session_validity_key key (λ same. ne (sym same)),
      get-set now key v maxage c later key e,
      eq_refl key,
    )

module _ {S : Type 0} (h : Handler S) where
  -- The handler keeps its data in the cookie alone.
  abbrev pub IsClientSide : Type 0
  IsClientSide = (h.store ≡ none) × (h.cache ≡ none) × (h.server_only ≡ false)

  put-client_side :
      (now : ℤ) (key v : String) (maxage : ℤ) (s : State S) (c c' : Cookie)
      → IsClientSide
      → (key == session_validity_key) ≡ false
      → cookie_set now key v maxage s.cookie ≡ some c
      → cookie_touch now c ≡ some c'
      → put now h key v maxage s ≡ (ok tt, record s { cookie = c' })
  unfolding put id put_at put_cookie cache_put
  put-client_side now key v maxage s c c' (hs, hc, ho) ne e f = rw (hs, ho, e, ne, f, hc)

  -- Put of the validity entry with the cookie's own MaxAge is Touch.
  pub put-validity :
      (now : ℤ) (s : State S) (c : Cookie)
      → IsClientSide
      → cookie_touch now s.cookie ≡ some c
      → put now h session_validity_key "true" s.cookie.http_cookie.max_age s
        ≡ (ok tt, record s { cookie = c })
  unfolding put id put_at put_cookie cache_put cookie_touch
  put-validity now s c (hs, hc, ho) e = rw (hs, ho, e, hc) refl

  get_taken-client_side :
      (later : ℤ) (i key : String) (o : Option String) (t : State S)
      → IsClientSide
      → (get_taken later h i key o t).0 ≡ found_or_missing o
  unfolding get_taken touch cache_taken
  get_taken-client_side later i key none t client = refl
  get_taken-client_side later i key (some v) t (hs, hc, ho) =
      let (c, e) = cookie_touch-some later t.cookie in rw (ho, e, hc)

  get-client_side :
      (later : ℤ) (key : String) (s : State S)
      → IsClientSide
      → (get later h key s).0 ≡ found_or_missing (cookie_get later key s.cookie).0
  unfolding get_cookie take_cookie
  get-client_side later key s (hs, hc, ho) =
      let i = (cookie_id s.cookie).0 in
      let shown : get later h key s ≡ get_cookie later h i key s =
        (unfold get id get_at get_uncached in simp (hc, hs, ho)) in
      let (v, c) = cookie_get later key s.cookie in
      ap (λ r. r.0) shown
      ∙ get_taken-client_side later i key v (record s { cookie = c }) (hs, hc, ho)

-- In a session that is kept in the cookie alone, Put of a key other than the two reserved ones
-- succeeds, and Get of this key at any later time answers with the value until its deadline has
-- passed, and with the error for a missing key afterwards or where the lifetime was negative.
pub get-put :
    {S : Type 0} (h : Handler S) (now later : ℤ) (key v : String) (maxage : ℤ) (s : State S)
    → IsClientSide h
    → key ≢ "id"
    → key ≢ session_validity_key
    → (s' : State S) × (put now h key v maxage s ≡ (ok tt, s'))
      × ((get later h key s').0
          ≡ found_or_missing
              (readable v later maxage (deadline s.cookie.http_cookie.max_age now maxage)))
get-put h now later key v maxage s client ne ne' =
    elim (Option-cases (cookie_set now key v maxage s.cookie)) [
      | inl e ↦ absurd (ne ((set-none_iff now key v maxage s.cookie).0 e))
      | inr (c, e) ↦
          let (c', f) = cookie_touch-some now c in
          let other : (key == session_validity_key) ≡ false =
            different key session_validity_key ne' in
          (
            record s { cookie = c' },
            put-client_side h now key v maxage s c c' client other e f,
            get-client_side h later key (record s { cookie = c' }) client
                ∙ ap found_or_missing (readable-touched now later key v maxage s.cookie ne' e f),
          )
    ]
