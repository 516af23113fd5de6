-- ===== src/Mux/Route.antt =====
-- multiplexer.go, ServeMux.ServeHTTP: the choice of the pattern, an exact one or the longest prefix
-- that ends in a slash.
use Prim.Native.String.{len}
use text.Mathlib.Text.{starts_with}
use xhttp.Prelude.{String, Option, none, some, [], ◌∷◌, Bool, ◌&&◌, ltb, if◌then◌else◌}
use xhttp.Prelude.Dict.{Dict, lookup}
use xhttp.Prelude.Text.{has_suffix}
use xhttp.Mux.Verbs.{VerbHandlers, no_handlers}

-- One round of the loop over the map: whether the entry replaces what was found so far.
abbrev pub matches : String → String → Bool
matches path pattern = has_suffix pattern "/" && starts_with path pattern

abbrev pub better : String → String × VerbHandlers → String × VerbHandlers → String × VerbHandlers
better path (p, v) (longest, vh) =
    if matches path p && ltb (len longest) (len p) then (p, v) else (longest, vh)

unfoldable pub scan : String → Dict VerbHandlers → String × VerbHandlers → String × VerbHandlers
scan path [] acc = acc
scan path (entry ∷ m) acc = scan path m (better path entry acc)

abbrev route_from : String → Dict VerbHandlers → Option VerbHandlers → String × VerbHandlers
route_from path m (some v) = (path, v)
route_from path m none = scan path m ("", no_handlers)

-- `longestpath` and `vh` where the switch begins.
unfoldable pub find_route : String → Dict VerbHandlers → String × VerbHandlers
find_route path m = route_from path m (lookup path m)
