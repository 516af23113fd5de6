-- ===== src/Mux/Examples.antt =====
-- The theorems on the multiplexer at concrete routes and requests.
use xhttp.Prelude.{
  ◌≡◌, ◌≢◌, refl, ◌↔◌, String, true, none, some, List, [], ◌∷◌, if◌then◌else◌, ◌==◌, eq_iff, subst,
  Bool-cases, inl, inr,
}
use Prim.Native.String.{◌++◌}
use xhttp.Prelude.Dict.{Dict, lookup, insert, Distinct}
use xhttp.Prelude.Text.{split, to_upper, has_suffix}
use xhttp.Http.{Exchange, Handler, returned, panicked, write}
use xhttp.Mux.Verbs.{VerbHandlers, no_handlers, get, delete, verb_of}
use xhttp.Mux.Route.{find_route, scan}
use xhttp.Mux.Register.{
  NetMux, Owner, this_mux, another, ServeMux, new_serve_mux, initial, register_get,
}
use xhttp.Mux.Dispatch.{serve_http, serve_catch_all}
use xhttp.Mux.PathMatch.{Vars, pattern_match}
use xhttp.Mux.Longest.{IsLongest, find_route-IsLongest, find_route-order_irrelevant}
use xhttp.Mux.Served.{register_for, serve_http-register_for, serve_http-unregistered}
use xhttp.Mux.Segments.{Fits, AllNamed, pattern_match-true_iff}

-- A multiplexer that keeps the patterns it was handed and accepts every one.
abbrev toy_found : List String → String → Owner × String
toy_found [] pattern = (another, "")
toy_found (p ∷ ps) pattern = if p == pattern then (this_mux, p) else toy_found ps pattern

abbrev toy_net : NetMux
toy_net = record {
  Mux = List String;
  new_mux = [];
  found = λ m method pattern. toy_found m pattern;
  handle = λ m pattern. some (pattern ∷ m);
  is_request = λ method pattern. true;
}

abbrev writes : String → Handler
writes text x = returned (record x { res = write text x.res })

abbrev asks : String → String → Exchange
asks method path = record {
  req = record {
    method = method;
    scheme = "http";
    path = path;
    header = [];
    cookies = [];
    ctx = [];
  };
  res = record { header = []; sent = none; body = [] };
}

abbrev shop : VerbHandlers
shop = record no_handlers {
  get = record { input = some (writes "shop"); output = some (writes "shop") };
}

abbrev with_shop : ServeMux toy_net
with_shop = record {
  catch_all = initial;
  routes = ("/shop", record shop { head = shop.get }) ∷ [];
  mux = "/shop" ∷ [];
  init_err = [];
}

register_test :
    register_for toy_net get (new_serve_mux toy_net) "/shop" (some (writes "shop")) ≡ some with_shop
unfolding register_get insert lookup
register_test = refl

serve_http-register_for_example :
    serve_http toy_net with_shop (asks "get" "/shop")
    ≡ serve_catch_all initial (writes "shop") (asks "get" "/shop")
unfolding to_upper
serve_http-register_for_example =
    serve_http-register_for toy_net get (new_serve_mux toy_net) "/shop" (writes "shop")
      (asks "get" "/shop") register_test refl refl refl

serve_http-unregistered_example :
    serve_http toy_net with_shop (asks "DELETE" "/shop")
    ≡ serve_catch_all initial
        (λ y. panicked "invalid memory address or nil pointer dereference" y)
        (asks "DELETE" "/shop")
unfolding to_upper lookup verb_of
serve_http-unregistered_example =
    serve_http-unregistered toy_net with_shop (asks "DELETE" "/shop") delete
      (record shop { head = shop.get }) refl refl refl refl refl

-- Two patterns that end in a slash, in both orders.
abbrev one_order : Dict VerbHandlers
one_order = ("/a/", shop) ∷ ("/a/b/", no_handlers) ∷ []

abbrev other_order : Dict VerbHandlers
other_order = ("/a/b/", no_handlers) ∷ ("/a/", shop) ∷ []

find_route_test : find_route "/a/b/c" one_order ≡ ("/a/b/", no_handlers)
unfolding find_route scan lookup has_suffix
find_route_test = refl

one_order-Distinct : Distinct one_order
unfolding lookup
one_order-Distinct = (refl, (refl, tt))

other_order-Distinct : Distinct other_order
unfolding lookup
other_order-Distinct = (refl, (refl, tt))

find_route-IsLongest_example : IsLongest "/a/b/c" one_order (find_route "/a/b/c" one_order)
unfolding lookup
find_route-IsLongest_example = find_route-IsLongest "/a/b/c" one_order one_order-Distinct refl

same_entries : (k : String) → lookup k one_order ≡ lookup k other_order
unfolding lookup
same_entries k = elim (Bool-cases ("/a/" == k)) [
  | inl same ↦ subst (λ j. lookup j one_order ≡ lookup j other_order) ((eq_iff "/a/" k).0 same) refl
  | inr other_key ↦ rw other_key refl
]

find_route-order_irrelevant_example :
    find_route "/a/b/c" one_order ≡ find_route "/a/b/c" other_order
find_route-order_irrelevant_example =
    find_route-order_irrelevant "/a/b/c" one_order other_order one_order-Distinct
      other_order-Distinct same_entries

pattern_match-true_iff_example :
    (((v : Vars) × (pattern_match "users/7" "users/:id" (some []) ≡ some (true, v)))
      ↔ (Fits (split b'/' "users/:id") (split b'/' "users/7") × AllNamed (split b'/' "users/:id")))
    × ((v : Vars) → pattern_match "users/7" ("/" ++ "users/:id") (some []) ≢ some (true, v))
pattern_match-true_iff_example = pattern_match-true_iff "users/7" "users/:id" (some [])
