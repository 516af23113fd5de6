-- ===== src/Session/Memory.antt =====
-- What Cookie of sessioncookie.go is to the code that uses it: a memory of values with deadlines.
use xhttp.Prelude.{
  ◌≡◌, ◌≢◌, ◌⊎◌, refl, subst, sym, ap, ◌∙◌, String, true, Option, none, some, List, [], ◌∷◌,
  if◌then◌else◌, ◌==◌, Bool-cases, Option-cases, inl, inr, arith, eq_iff,
}
use xhttp.Prelude.Dict.{lookup, lookup-remove}
use xhttp.Prelude.Int.{ℤ, pos, ◌≤ℤ◌, ltb_ℤ}
use xhttp.Session.Value.{CookieValue, expired}
use xhttp.Session.Cookie.{Cookie, get, set, delete}
use xhttp.Session.Lifetime.{
  answer, get-lookup, deadline, is_over, readable, get-set, set-none_iff, set-http_cookie,
}

-- A value with its deadline for every key that has one.
abbrev pub Memory : Type 0
Memory = String → Option (String × Option ℤ)

abbrev pub remembered : ℤ → ℤ → String → ℤ → Option (String × Option ℤ)
remembered age now val maxage =
    if ltb_ℤ maxage (pos 0) then none else some (val, deadline age now maxage)

abbrev pub recalled : ℤ → Option (String × Option ℤ) → Option String
recalled later none = none
recalled later (some (v, end)) = if is_over later end then none else some v

abbrev pub assigned : String → Option (String × Option ℤ) → Memory → Memory
assigned key e m j = if key == j then e else m j

-- A call of the cookie's methods at an instant
pub data Op : Type 0 where
  get_op : String → Op
  set_op : String → String → ℤ → Op
  delete_op : String → Op

-- The answers of a sequence of calls; `none` if one panics.
abbrev pub answered : Option String → Option (List (Option String)) → Option (List (Option String))
answered v none = none
answered v (some vs) = some (v ∷ vs)

abbrev pub unless_panic : {A : Type 0} → Option Cookie → (Cookie → Option A) → Option A
unless_panic none k = none
unless_panic (some c) k = k c

unfoldable pub run : List (ℤ × Op) → Cookie → Option (List (Option String))
run [] c = some []
run ((now, get_op key) ∷ ops) c = answered (get now key c).0 (run ops (get now key c).1)
run ((now, set_op key val maxage) ∷ ops) c = unless_panic (set now key val maxage c) (run ops)
run ((now, delete_op key) ∷ ops) c = run ops (delete key c)

-- The answers of the memory, where `age` is the MaxAge of the cookie
unfoldable pub recall : ℤ → List (ℤ × Op) → Memory → List (Option String)
recall age [] m = []
recall age ((now, get_op key) ∷ ops) m = recalled now (m key) ∷ recall age ops m
recall age ((now, set_op key val maxage) ∷ ops) m =
    recall age ops (assigned key (remembered age now val maxage) m)
recall age ((now, delete_op key) ∷ ops) m = recall age ops (assigned key none m)

-- The instants do not go back, and no value is set under the key of the session id.
abbrev pub IsTimed : ℤ → List (ℤ × Op) → Type 0
IsTimed t [] = Unit
IsTimed t ((now, get_op key) ∷ ops) = (t ≤ℤ now) × IsTimed now ops
IsTimed t ((now, set_op key val maxage) ∷ ops) = (t ≤ℤ now) × (key ≢ "id") × IsTimed now ops
IsTimed t ((now, delete_op key) ∷ ops) = (t ≤ℤ now) × IsTimed now ops

-- From the instant `t` on, the cookie answers what the memory answers.
pub record Represents (age t : ℤ) (c : Cookie) (m : Memory) : Type 0 where
  pub same_age : c.http_cookie.max_age ≡ age
  pub same_answers :
      (later : ℤ) → t ≤ℤ later → (j : String) → (get later j c).0 ≡ recalled later (m j)

get-delete :
    (later : ℤ) (key j : String) (c : Cookie)
    → (get later j (delete key c)).0 ≡ (if key == j then none else (get later j c).0)
unfolding delete
get-delete later key j c =
    get-lookup later j (delete key c)
    ∙ ap (answer later) (lookup-remove key j c.values)
    ∙ elim (Bool-cases (key == j)) [
      | inl same ↦ rw same
      | inr other ↦ rw other (sym (get-lookup later j c))
    ]

is_over_mono :
    (now later : ℤ) (end : Option ℤ)
    → now ≤ℤ later
    → is_over now end ≡ true
    → is_over later end ≡ true
is_over_mono now later none h e = e
is_over_mono now later (some t) h e = ground arith

-- Get takes an entry away only where it is over.
get-state :
    (now : ℤ) (key : String) (c : Cookie)
    → ((get now key c).1 ≡ c)
      ⊎ (((get now key c).1 ≡ delete key c)
          × (v : CookieValue) × (lookup key c.values ≡ some v)
          × (is_over now v.expiry ≡ true))
unfolding get
get-state now key c = elim (Option-cases (lookup key c.values)) [
  | inl gone ↦ inl (rw gone refl)
  | inr (v, found) ↦ elim (Bool-cases (expired now v)) [
    | inl over ↦ inr (rw (found, over) refl, v, found, over)
    | inr fresh ↦ inl (rw (found, fresh) refl)
  ]
]

get-get :
    (now later : ℤ) (key j : String) (c : Cookie)
    → now ≤ℤ later
    → (get later j (get now key c).1).0 ≡ (get later j c).0
get-get now later key j c h = elim (get-state now key c) [
  | inl same ↦ rw same refl
  | inr (gone, v, found, over) ↦ rw gone (
      get-delete later key j c ∙ elim (Bool-cases (key == j)) [
        | inl same ↦
            let key' : key ≡ j = (eq_iff key j).0 same in
            let over' : is_over later v.expiry ≡ true = is_over_mono now later v.expiry h over in
            let at_j : lookup j c.values ≡ some v =
              subst (λ k. lookup k c.values ≡ some v) key' found in
            rw same (sym (get-lookup later j c ∙ rw (at_j, over') refl))
        | inr other ↦ rw other refl
      ])
]

≤ℤ_trans : (a b c : ℤ) → a ≤ℤ b → b ≤ℤ c → a ≤ℤ c
≤ℤ_trans a b c h k = omega arith

recalled-remembered :
    (now : ℤ) (val : String) (maxage later age : ℤ)
    → recalled later (remembered age now val maxage)
      ≡ readable val later maxage (deadline age now maxage)
recalled-remembered now val maxage later age = elim (Bool-cases (ltb_ℤ maxage (pos 0))) [
  | inl past ↦ rw past refl
  | inr kept ↦ rw kept refl
]

module _ (age t now : ℤ) (c : Cookie) (m : Memory) (later_than : t ≤ℤ now) where
  Represents-get : (key : String) → Represents age t c m → Represents age now (get now key c).1 m
  Represents-get key r = record {
    same_age = elim (get-state now key c) [
      | inl same ↦ rw same r.same_age
      | inr (gone, v, found, over) ↦ rw gone (unfold delete in r.same_age)
    ];
    same_answers = λ later h j.
        get-get now later key j c h ∙ r.same_answers later (≤ℤ_trans t now later later_than h) j;
  }

  Represents-delete :
      (key : String)
      → Represents age t c m
      → Represents age now (delete key c) (assigned key none m)
  unfolding delete
  Represents-delete key r = record {
    same_age = r.same_age;
    same_answers = λ later h j. get-delete later key j c ∙ elim (Bool-cases (key == j)) [
      | inl same ↦ rw same refl
      | inr other ↦ rw other (r.same_answers later (≤ℤ_trans t now later later_than h) j)
    ];
  }

  Represents-set :
      (key val : String) (maxage : ℤ) {c' : Cookie}
      → set now key val maxage c ≡ some c'
      → Represents age t c m
      → Represents age now c' (assigned key (remembered age now val maxage) m)
  Represents-set key val maxage {c'} e r = record {
    same_age = ap (λ k. k.max_age) (set-http_cookie now key val maxage c e) ∙ r.same_age;
    same_answers = λ later h j.
        get-set now key val maxage c later j e ∙ elim (Bool-cases (key == j)) [
          | inl same ↦ rw (same, r.same_age) (sym (recalled-remembered now val maxage later age))
          | inr other ↦ rw other (r.same_answers later (≤ℤ_trans t now later later_than h) j)
        ];
  }

run-recall :
    (age t : ℤ) (ops : List (ℤ × Op)) (c : Cookie) (m : Memory)
    → Represents age t c m
    → IsTimed t ops
    → run ops c ≡ some (recall age ops m)
unfolding run recall
run-recall age t [] c m r h = refl
run-recall age t ((now, get_op key) ∷ ops) c m r (h, hs) =
    rw
      (
        run-recall age now ops _ m (Represents-get age t now c m h key r) hs,
        r.same_answers now h key,
      )
      refl
run-recall age t ((now, delete_op key) ∷ ops) c m r (h, hs) =
    run-recall age now ops _ _ (Represents-delete age t now c m h key r) hs
run-recall age t ((now, set_op key val maxage) ∷ ops) c m r (h, ne, hs) =
    elim (Option-cases (set now key val maxage c)) [
      | inl crashed ↦ absurd (ne ((set-none_iff now key val maxage c).0 crashed))
      | inr (c', e) ↦
          ap (λ o. unless_panic o (run ops)) e
          ∙ (run-recall age now ops c' _ (Represents-set age t now c m h key val maxage e r) hs)
    ]

abbrev entry : Option CookieValue → Option (String × Option ℤ)
entry none = none
entry (some v) = some (v.value, v.expiry)

-- The entries of the cookie
abbrev pub contents : Cookie → Memory
contents c j = entry (lookup j c.values)

answer-entry : (later : ℤ) (o : Option CookieValue) → answer later o ≡ recalled later (entry o)
answer-entry later none = refl
answer-entry later (some v) = refl

Represents-contents : (t : ℤ) (c : Cookie) → Represents c.http_cookie.max_age t c (contents c)
Represents-contents t c = record {
  same_age = refl;
  same_answers = λ later h j. get-lookup later j c ∙ answer-entry later (lookup j c.values);
}

-- Any sequence of calls of Get, Set and Delete on the cookie, at instants that do not go back and with
-- no Set of the session id, panics nowhere and answers what a memory of values with deadlines answers
-- that starts with the entries of the cookie, though Get takes expired entries away in between.
pub run-contents :
    (t : ℤ) (ops : List (ℤ × Op)) (c : Cookie)
    → IsTimed t ops
    → run ops c ≡ some (recall c.http_cookie.max_age ops (contents c))
run-contents t ops c h =
    run-recall c.http_cookie.max_age t ops c (contents c) (Represents-contents t c) h
