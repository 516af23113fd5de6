-- ===== src/Session/Setup/Examples.antt =====
-- A session that is made with options.
use xhttp.Prelude.{◌≡◌, refl, String, true, false, none, some, List, [], ◌∷◌, is_some}
use xhttp.Prelude.Int.{pos}
use xhttp.Session.Value.{new_cookie_value}
use xhttp.Session.Cookie.{new_cookie, touch, set, put, default_cookie_config}
use xhttp.Session.Action.{ok, err, key_not_found}
use xhttp.Session.Handler.{Store}
use xhttp.Session.Setup.{new, configure, set_store, server_only}

abbrev store : Store (List String)
store = record {
  get = λ i key b. (err key_not_found, b);
  put = λ i key value maxage b. (ok tt, b);
  delete = λ i key b. (ok tt, b);
  time_to_expiry = λ i key b. (err key_not_found, b);
}

-- Without a store, a session that is kept on the server alone is refused.
new_test :
    (is_some (
        new {S = List String} (pos 100) 7 (λ b. (ok "r", b)) "s" "k" (some server_only ∷ none ∷ []))
      ≡ false)
    × (is_some (
          new
            (pos 100)
            7
            (λ b. (ok "r", b))
            "s"
            "k"
            (some server_only ∷ some (set_store (some store)) ∷ []))
        ≡ true)
unfolding new configure new_cookie touch set put default_cookie_config new_cookie_value
new_test = (refl, refl)
