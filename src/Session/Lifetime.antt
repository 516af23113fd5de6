-- ===== src/Session/Lifetime.antt =====
-- How long a value of the session cookie can be read back, and what Expire and Touch do.
use xhttp.Prelude.{
  ℕ, zero, suc, ◌↔◌, ◌≡◌, ◌≢◌, sym, ◌∙◌, ap, String, Bool, true, false, Option, none, some, [], ◌∷◌,
  arith, eq_iff, if◌then◌else◌, ◌==◌, Bool-cases, Option-cases, inl, inr,
}
use xhttp.Prelude.Dict.{lookup, insert, remove, lookup-insert, lookup-remove}
use xhttp.Prelude.Int.{ℤ, pos, negsuc, ◌+ℤ◌, ltb_ℤ, is_zero}
use xhttp.Session.Value.{CookieValue, new_cookie_value, add_time_limit}
use xhttp.Session.Cookie.{
  Cookie, session_validity_key, id, set_id, get, put, set, delete, crashed, time_to_expiry, touch,
  expire,
}

-- The earlier of two instants.
abbrev pub earlier : ℤ → ℤ → ℤ
earlier a b = if ltb_ℤ a b then a else b

-- The instant after which a value set at `now` with a lifetime of `maxage` cannot be read any more,
-- in a cookie whose own MaxAge is `cookie_age`: `maxage` later, or `cookie_age` later if that is
-- sooner and not zero. A lifetime of zero has no end.
abbrev pub deadline : ℤ → ℤ → ℤ → Option ℤ
deadline cookie_age now maxage =
    if is_zero maxage
    then none
    else if is_zero cookie_age
    then some (now +ℤ maxage)
    else some (earlier (now +ℤ maxage) (now +ℤ cookie_age))

abbrev pub is_over : ℤ → Option ℤ → Bool
is_over later none = false
is_over later (some t) = ltb_ℤ t later

abbrev pub readable : String → ℤ → ℤ → Option ℤ → Option String
readable val later maxage end =
    if ltb_ℤ maxage (pos 0) then none else if is_over later end then none else some val

abbrev value_set : ℤ → String → ℤ → ℤ → CookieValue
value_set now val maxage cookie_age = record {
  value = val;
  expiry = deadline cookie_age now maxage;
}

new_cookie_value-limited :
    (now : ℤ) (val : String) (n : ℕ) (cookie_age : ℤ)
    → new_cookie_value now val cookie_age (add_time_limit (now +ℤ pos (suc n)) ∷ [])
      ≡ value_set now val (pos (suc n)) cookie_age
unfolding new_cookie_value add_time_limit
new_cookie_value-limited now val n cookie_age = elim (Bool-cases (is_zero cookie_age)) [
  | inl zero_age ↦ rw zero_age (ground arith)
  | inr aged ↦ rw aged (ground arith)
]

-- What Set stores under its key, and under no other.
abbrev stored : ℤ → String → ℤ → ℤ → Option CookieValue
stored now val maxage cookie_age =
    if ltb_ℤ maxage (pos 0) then none else some (value_set now val maxage cookie_age)

lookup-set :
    (now : ℤ) (key val : String) (maxage : ℤ) (c : Cookie) (j : String) {c' : Cookie}
    → set now key val maxage c ≡ some c'
    → lookup j c'.values
      ≡ (if key == j then stored now val maxage c.http_cookie.max_age else lookup j c.values)
lookup-set now key val (pos zero) c j e =
    (unfold set put new_cookie_value in
      ground (arith, lookup-insert key j (record { value = val; expiry = none }) c.values))
lookup-set now key val (pos (suc n)) c j e =
    (unfold set put in
      ground (
        arith,
        new_cookie_value-limited now val n c.http_cookie.max_age,
        lookup-insert key j
            (new_cookie_value now val c.http_cookie.max_age
              (add_time_limit (now +ℤ pos (suc n)) ∷ []))
            c.values,
      ))
lookup-set now key val (negsuc n) c j e =
    (unfold set delete in ground (arith, lookup-remove key j c.values, eq_iff key j))

-- What Get answers for an entry.
abbrev pub answer : ℤ → Option CookieValue → Option String
answer later none = none
answer later (some v) = if is_over later v.expiry then none else some v.value

pub get-lookup :
    (later : ℤ) (j : String) (c : Cookie) → (get later j c).0 ≡ answer later (lookup j c.values)
unfolding get
get-lookup later j c = ground arith

answer-stored :
    (now later : ℤ) (val : String) (maxage cookie_age : ℤ)
    → answer later (stored now val maxage cookie_age)
      ≡ readable val later maxage (deadline cookie_age now maxage)
answer-stored now later val maxage cookie_age = elim (Bool-cases (ltb_ℤ maxage (pos 0))) [
  | inl past ↦ rw past
  | inr kept ↦ rw kept
]

-- After Set, Get of the same key finds the value until its deadline has passed, and nothing at any
-- time for a negative lifetime; Get of another key answers as before Set.
pub get-set :
    (now : ℤ) (key val : String) (maxage : ℤ) (c : Cookie) (later : ℤ) (j : String) {c' : Cookie}
    → set now key val maxage c ≡ some c'
    → (get later j c').0 ≡ (
        if key == j
        then readable val later maxage (deadline c.http_cookie.max_age now maxage)
        else (get later j c).0)
get-set now key val maxage c later j {c'} e =
    get-lookup later j c'
    ∙ ap (answer later) (lookup-set now key val maxage c j e)
    ∙ elim (Bool-cases (key == j)) [
      | inl same ↦ rw same (answer-stored now later val maxage c.http_cookie.max_age)
      | inr other ↦ rw other (sym (get-lookup later j c))
    ]

-- Set panics exactly for the key that holds the session id.
pub set-none_iff :
    (now : ℤ) (key val : String) (maxage : ℤ) (c : Cookie)
    → (set now key val maxage c ≡ none) ↔ (key ≡ "id")
unfolding set
set-none_iff now key val maxage c = ground (arith, eq_iff key "id")

set-some-ne :
    (now : ℤ) (key val : String) (maxage : ℤ) (c : Cookie) {c' : Cookie}
    → set now key val maxage c ≡ some c'
    → (key == "id") ≡ false
unfolding set
set-some-ne now key val maxage c e = ground arith

pub set-http_cookie :
    (now : ℤ) (key val : String) (maxage : ℤ) (c : Cookie) {c' : Cookie}
    → set now key val maxage c ≡ some c'
    → c'.http_cookie ≡ c.http_cookie
unfolding set put delete
set-http_cookie now key val maxage c e = ground arith

-- An id that was set is the id that ID answers, and no later Set takes it away.
pub id-set-set_id :
    (now later : ℤ) (i key val : String) (maxage : ℤ) (c : Cookie) {c' : Cookie}
    → set later key val maxage (set_id now i c) ≡ some c'
    → id c' ≡ (i, true)
unfolding id set_id new_cookie_value
id-set-set_id now later i key val maxage c {c'} e =
    let ne : (key == "id") ≡ false = set-some-ne later key val maxage (set_id now i c) e in
    let kept : lookup "id" c'.values ≡ lookup "id" (set_id now i c).values =
      lookup-set later key val maxage (set_id now i c) "id" e ∙ rw ne in
    let at_id : lookup "id" (set_id now i c).values ≡ some (record { value = i; expiry = none }) =
      lookup-insert "id" "id" (record { value = i; expiry = none }) c.values in
    rw (kept, at_id)

lookup_id-set :
    (now : ℤ) (key val : String) (maxage : ℤ) (c : Cookie) {c' : Cookie}
    → set now key val maxage c ≡ some c'
    → lookup "id" c'.values ≡ lookup "id" c.values
lookup_id-set now key val maxage c e =
    lookup-set now key val maxage c "id" e ∙ rw (set-some-ne now key val maxage c e)

pub id-set :
    (now : ℤ) (key val : String) (maxage : ℤ) (c : Cookie) {c' : Cookie}
    → set now key val maxage c ≡ some c'
    → id c' ≡ id c
unfolding id
id-set now key val maxage c e = rw (lookup_id-set now key val maxage c e)

pub lookup_id-touch :
    (now : ℤ) (c : Cookie) {c' : Cookie}
    → touch now c ≡ some c'
    → lookup "id" c'.values ≡ lookup "id" c.values
unfolding touch
lookup_id-touch now c e = lookup_id-set now session_validity_key "true" c.http_cookie.max_age c e

pub id-touch : (now : ℤ) (c : Cookie) {c' : Cookie} → touch now c ≡ some c' → id c' ≡ id c
unfolding touch
id-touch now c e = id-set now session_validity_key "true" c.http_cookie.max_age c e

pub id-delete : (key : String) (c : Cookie) → key ≢ "id" → id (delete key c) ≡ id c
unfolding id delete
id-delete key c ne =
    let kept : lookup "id" (remove key c.values) ≡ lookup "id" c.values =
      lookup-remove key "id" c.values ∙ ground (arith, eq_iff key "id") in
    rw kept

-- After Expire the id is the empty text, the validity entry is gone, and the cookie's MaxAge is
-- negative, which tells the browser to drop it.
pub expire_lem :
    (now : ℤ) (c : Cookie)
    → (c' : Cookie) × (expire now c ≡ some c')
      × (id c' ≡ ("", true))
      × (lookup session_validity_key c'.values ≡ none)
      × (c'.http_cookie.max_age ≡ negsuc 0)
unfolding expire id
expire_lem now c = elim (Option-cases (expire now c)) [
  | inl e ↦ absurd (not_id ((set-none_iff now session_validity_key "false" (negsuc 0) base).0 e))
  | inr (c', e) ↦
      let kept : lookup "id" c'.values ≡ some gone =
        lookup-set now session_validity_key "false" (negsuc 0) base "id" e
        ∙ lookup-insert "id" "id" gone c.values in
      (
        c',
        e,
        rw kept (unfold new_cookie_value add_time_limit in ground arith),
        lookup-set now session_validity_key "false" (negsuc 0) base session_validity_key e,
        ap (λ h. h.max_age) (set-http_cookie now session_validity_key "false" (negsuc 0) base e),
      )
]
  where
    gone : CookieValue
    gone = new_cookie_value now "" c.http_cookie.max_age (add_time_limit now ∷ [])

    base : Cookie
    base = record c {
      values = insert "id" gone c.values;
      http_cookie = record c.http_cookie { max_age = negsuc 0 };
    }

    not_id : session_validity_key ≢ "id"
    not_id = ground (arith, eq_iff session_validity_key "id")

-- TimeToExpiry calls a method through a nil pointer exactly where the key has a value that has no
-- expiry.
pub time_to_expiry-crashed_iff :
    (now : ℤ) (key : String) (c : Cookie)
    → ((time_to_expiry now key c).0 ≡ crashed)
      ↔ ((v : CookieValue) × (lookup key c.values ≡ some v) × (v.expiry ≡ none))
unfolding time_to_expiry
time_to_expiry-crashed_iff now key c = (
  λ h. elim (Option-cases (lookup key c.values)) [
    | inl e ↦ absurd (ground arith)
    | inr (v, e) ↦ (v, e, ground arith)
  ],
  λ (v, e, none_set). ground arith,
)
