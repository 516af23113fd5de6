-- ===== src/Gzip/Examples.antt =====
-- Skip with a method's name in lower case.
use xhttp.Prelude.{◌≡◌, refl, true, false, some}
use xhttp.Prelude.Dict.{insert}
use xhttp.Gzip.{Gzipper, new_handler, skip_method, must_skip}

abbrev skipping_get : Gzipper
skipping_get = record { skip = insert "get" true new_handler.skip }

skip_test : skip_method "get" new_handler ≡ some skipping_get
unfolding skip_method new_handler
skip_test = refl

still_compressed_test : must_skip skipping_get "GET" ≡ false
unfolding must_skip new_handler insert
still_compressed_test = refl
