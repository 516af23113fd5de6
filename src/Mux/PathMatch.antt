-- ===== src/Mux/PathMatch.antt =====
-- multiplexer.go: patternMatch, over the request URI of the URL. `none` is a panic; the map `vars`,
-- if there is one, comes back as the function leaves it.
use Prim.Native.String.{len, slice}
use text.Mathlib.Text.{starts_with}
use xhttp.Prelude.{
  String, Bool, true, false, Option, none, some, List, ◌∷◌, length, nat_eq, not, if◌then◌else◌,
  ◌==◌,
}
use xhttp.Prelude.Dict.{Dict, insert}
use xhttp.Prelude.Text.{split}

abbrev pub Vars : Type 0
Vars = Option (Dict String)

abbrev pub capture : String → String → Vars → Vars
capture name part none = none
capture name part (some m) = some (insert name part m)

-- The loop over the parts of the pattern, beside as many parts of the path. The test str[0:1]
-- panics at an empty part.
unfoldable pub match_parts : List String → List String → Vars → Option (Bool × Vars)
match_parts (str ∷ pattern) (part ∷ path) vars =
    let same = match_parts pattern path vars in
    let captured = match_parts pattern path (capture (slice str 1 (len str)) part vars) in
    if str == ""
    then none
    else if not (starts_with str ":")
    then (if str == part then same else some (false, vars))
    else captured
match_parts _ _ vars = some (true, vars)

-- patternMatch
unfoldable pub pattern_match : String → String → Vars → Option (Bool × Vars)
unfolding match_parts
pattern_match uri pattern vars =
    let pathsplit = split b'/' uri in
    let patternsplit = split b'/' pattern in
    if not (nat_eq (length pathsplit) (length patternsplit))
    then some (false, vars)
    else match_parts patternsplit pathsplit vars
