-- ===== src/Upload/Sets.antt =====
-- handlers/chunkedupload/handler.go: the type set, a map to Booleans in which every entry is true.
use xhttp.Prelude.{
  ℕ, String, Bool, true, false, Option, none, some, List, [], ◌∷◌, not, if◌then◌else◌, length,
}
use xhttp.Prelude.Dict.{Dict, lookup, insert, remove as remove_key}
use xhttp.Prelude.Text.{to_lower}

abbrev pub Set : Type 0
Set = Dict Bool

-- newSet
abbrev pub new_set : Set
new_set = []

-- Add
unfoldable pub add : List String → Set → Set
unfolding insert
add [] s = s
add (str ∷ strs) s = add strs (insert str true s)

abbrev pub folded : String → Bool → String
folded str case_sensitive = if not case_sensitive then to_lower str else str

-- Remove
unfoldable pub remove : String → Bool → Set → Set
unfolding to_lower remove_key
remove str case_sensitive s = remove_key (folded str case_sensitive) s

abbrev pub or_false : Option Bool → Bool
or_false none = false
or_false (some b) = b

-- s[k]
unfoldable pub holds : String → Set → Bool
unfolding lookup
holds k s = or_false (lookup k s)

-- Contains
unfoldable pub contains : String → Bool → Set → Bool
unfolding to_lower holds
contains str case_sensitive s = holds (folded str case_sensitive) s

-- s.Includes(v)
unfoldable pub includes : Set → Set → Bool
unfolding holds
includes s [] = true
includes s ((k, b) ∷ v) = let rest = includes s v in if not (holds k s) then false else rest

unfoldable pub add_keys : Set → Set → Set
unfolding insert
add_keys [] r = r
add_keys ((k, b) ∷ v) r = add_keys v (insert k true r)

-- s.Union(v)
unfoldable pub union : Set → Set → Set
unfolding add_keys
union s v = add_keys s (add_keys v new_set)

unfoldable pub common_keys : Set → Set → Set → Set
unfolding holds insert
common_keys s [] r = r
common_keys s ((k, b) ∷ v) r = common_keys s v (if holds k s then insert k true r else r)

-- s.Inter(v)
unfoldable pub inter : Set → Set → Set
unfolding common_keys
inter s v = common_keys s v new_set

-- List
unfoldable pub list : Set → List String
list [] = []
list ((k, b) ∷ s) = k ∷ list s

-- Count
abbrev pub count : Set → ℕ
count s = length s
