-- ===== src/Http/Header.antt =====
-- http.Header. The keys that the library passes to Add, Set, Get and Del are all written in canonical
-- form, so that these look up the key as it is.
use xhttp.Prelude.{
  String, ◌≡◌, ap, Option, none, some, List, [], ◌∷◌, ◌++◌, if◌then◌else◌, ◌==◌, arith,
}
use xhttp.Prelude.Dict.{Dict, lookup, insert, remove, lookup-insert}

-- h[key], with its `ok`
unfoldable pub header_values : String → Dict (List String) → Option (List String)
header_values key h = lookup key h

abbrev first : Option (List String) → String
first (some (v ∷ vs)) = v
first _ = ""

-- h.Get(key): the first value, or the empty text
unfoldable pub get_header : String → Dict (List String) → String
get_header key h = first (lookup key h)

abbrev appended : String → Option (List String) → List String
appended v none = v ∷ []
appended v (some vs) = vs ++ v ∷ []

-- h.Add(key, v)
unfoldable pub add_header : String → String → Dict (List String) → Dict (List String)
add_header key v h = insert key (appended v (lookup key h)) h

-- h.Set(key, v)
unfoldable pub set_header : String → String → Dict (List String) → Dict (List String)
set_header key v h = insert key (v ∷ []) h

-- h.Del(key)
unfoldable pub del_header : String → Dict (List String) → Dict (List String)
del_header key h = remove key h

-- All the values under a key, in the order in which they were added.
abbrev pub all_values : String → Dict (List String) → List String
all_values key h = elim (lookup key h) [ none ↦ [] | some vs ↦ vs ]

pub lookup-add_header :
    (key j v : String) (h : Dict (List String))
    → lookup j (add_header key v h)
      ≡ (if key == j then some (all_values key h ++ v ∷ []) else lookup j h)
unfolding add_header
lookup-add_header key j v h = ground (arith, lookup-insert key j (appended v (lookup key h)) h)

pub lookup-set_header :
    (key j v : String) (h : Dict (List String))
    → lookup j (set_header key v h) ≡ (if key == j then some (v ∷ []) else lookup j h)
unfolding set_header
lookup-set_header key j v h = lookup-insert key j (v ∷ []) h

pub get_header-some :
    (key v : String) (vs : List String) (h : Dict (List String))
    → lookup key h ≡ some (v ∷ vs)
    → get_header key h ≡ v
unfolding get_header
get_header-some key v vs h e = ap first e
