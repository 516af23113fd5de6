-- ===== src/Session/Value.antt =====
-- handlers/session/sessioncookie.go: CookieValue. Instants and durations are in nanoseconds; a
-- function reads the clock as often as the source does, but at one instant, its argument `now`.
use xhttp.Prelude.{String, Bool, false, Option, none, some, List, [], ◌∷◌, if◌then◌else◌}
use xhttp.Prelude.Int.{ℤ, ◌+ℤ◌, ltb_ℤ, is_zero}

pub record CookieValue : Type 0 where
  pub value : String
  pub expiry : Option ℤ

abbrev pub with_options {ℓ} : {A : Type ℓ} → List (A → A) → A → A
with_options [] c = c
with_options (opt ∷ opts) c = with_options opts (opt c)

-- NewCookieValue
unfoldable pub new_cookie_value : ℤ → String → ℤ → List (CookieValue → CookieValue) → CookieValue
new_cookie_value now val maxage options = with_options options (
    if is_zero maxage
    then record { value = val; expiry = none }
    else record { value = val; expiry = some (now +ℤ maxage) })

abbrev is_past : ℤ → Option ℤ → Bool
is_past now none = false
is_past now (some t) = ltb_ℤ t now

-- CookieValue.Expired
unfoldable pub expired : ℤ → CookieValue → Bool
expired now c = is_past now c.expiry

-- CookieValue.tryRetrieve
unfoldable pub try_retrieve : ℤ → CookieValue → Option String
unfolding expired
try_retrieve now c = if expired now c then none else some c.value

abbrev limited : ℤ → Option ℤ → Option ℤ
limited t none = some t
limited t (some e) = if ltb_ℤ t e then some t else some e

-- AddTimeLimit
unfoldable pub add_time_limit : ℤ → CookieValue → CookieValue
add_time_limit t c = record c { expiry = limited t c.expiry }
