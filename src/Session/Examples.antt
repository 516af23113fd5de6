-- ===== src/Session/Examples.antt =====
-- The session theorems at concrete cookies.
use xhttp.Prelude.{
  List, [], ◌∷◌, ◌≢◌, false, eq_iff, arith, ◌≡◌, refl, String, true, none, some, if◌then◌else◌,
  ◌==◌,
}
use xhttp.Prelude.Dict.{lookup, insert}
use xhttp.Prelude.Int.{ℤ, pos, ◌+ℤ◌}
use xhttp.Prelude.Text.{split}
use xhttp.Session.Value.{new_cookie_value}
use xhttp.Session.Cookie.{Cookie, get, set, set_id}
use xhttp.Session.Codec.{encoded, decoded, encode, decode, compute_hmac256}
use xhttp.Session.Lifetime.{readable, deadline, get-set}
use xhttp.Session.RoundTrip.{IsAuthentic, decode-IsAuthentic, decode-encode, overlaid, all_valid}
use xhttp.Session.Memory.{Op, get_op, set_op, delete_op, run, recall, run-contents}
use xhttp.Session.Samples.{toy_codec, valid, toy_codec-IsCodec, visitor, newcomer, sent_cookie}

encode_test : (encode toy_codec visitor).0 ≡ encoded sent_cookie
unfolding encode toy_codec
encode_test = refl

decode_test : (decode toy_codec newcomer sent_cookie).0 ≡ decoded
unfolding decode toy_codec split compute_hmac256
decode_test = refl

decode-IsAuthentic_example :
    IsAuthentic toy_codec newcomer (decode toy_codec newcomer sent_cookie).1 sent_cookie.value
decode-IsAuthentic_example = decode-IsAuthentic toy_codec newcomer sent_cookie decode_test

decode-encode_example :
    ((decode toy_codec newcomer sent_cookie).0 ≡ decoded)
    × ((k : String)
        → lookup k (decode toy_codec newcomer sent_cookie).1.values
          ≡ overlaid k visitor.values newcomer.values)
unfolding all_valid
decode-encode_example =
    decode-encode toy_codec valid toy_codec-IsCodec visitor newcomer sent_cookie refl refl refl refl
      encode_test

-- The visitor's cookie after "cart" has been set for 60 units of time at the time 100.
abbrev with_cart : Cookie
with_cart = record visitor {
  values = insert "cart" (record { value = "3"; expiry = some (pos 160) }) visitor.values;
  apply_mods = true;
}

set_test : set (pos 100) "cart" "3" (pos 60) visitor ≡ some with_cart
unfolding set new_cookie_value ◌+ℤ◌
set_test = refl

get_test :
    ((get (pos 120) "cart" with_cart).0 ≡ some "3") × ((get (pos 170) "cart" with_cart).0 ≡ none)
unfolding get insert lookup
get_test = (refl, refl)

get-set_example : (get (pos 120) "cart" with_cart).0 ≡ (
    if "cart" == "cart"
    then readable "3" (pos 120) (pos 60) (deadline (pos 0) (pos 100) (pos 60))
    else (get (pos 120) "cart" visitor).0)
get-set_example = get-set (pos 100) "cart" "3" (pos 60) visitor (pos 120) "cart" set_test

-- The same for a cookie whose id has just been set.
abbrev renamed_with_cart : Cookie
renamed_with_cart = record (set_id (pos 90) "n" visitor) {
  values =
      insert "cart" (record { value = "3"; expiry = some (pos 160) })
        (set_id (pos 90) "n" visitor).values;
  apply_mods = true;
}

set-set_id_test :
    set (pos 100) "cart" "3" (pos 60) (set_id (pos 90) "n" visitor) ≡ some renamed_with_cart
unfolding set set_id new_cookie_value ◌+ℤ◌
set-set_id_test = refl

cart-ne-id : ◌≢◌ {A = String} "cart" "id"
cart-ne-id e = let t : false ≡ true = (eq_iff "cart" "id").1 e in cc

abbrev shopping : List (ℤ × Op)
shopping =
    (pos 100, set_op "cart" "3" (pos 60))
    ∷ (pos 120, get_op "cart")
    ∷ (pos 170, get_op "cart")
    ∷ (pos 180, delete_op "cart")
    ∷ (pos 190, get_op "cart")
    ∷ []

abbrev unlimited : Cookie
unlimited = record visitor { http_cookie = record visitor.http_cookie { max_age = pos 0 } }

run-contents_example : run shopping unlimited ≡ some (some "3" ∷ none ∷ none ∷ [])
unfolding recall ◌+ℤ◌
run-contents_example =
    run-contents (pos 100) shopping unlimited
      (omega arith, cart-ne-id, (omega arith, (omega arith, (omega arith, (omega arith, tt)))))
