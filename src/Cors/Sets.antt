-- ===== src/Cors/Sets.antt =====
-- handlers/cors/cors.go: the type set, the package's sets, and the tests of a request against one.
use xhttp.Prelude.{
  String, Bool, true, false, Option, none, some, List, [], ◌∷◌, not, ◌&&◌, if◌then◌else◌, ◌==◌,
}
use xhttp.Prelude.Text.{to_lower}
use xhttp.Prelude.Dict.{Dict}
use xhttp.Http.{Request, header_values, get_header}

-- Whether the text is a member, by the loop of Contains.
unfoldable pub has : String → List String → Bool
has str [] = false
has str (k ∷ s) = if k == str then true else has str s

-- set.Add of one text, and of several
abbrev pub add_one : String → List String → List String
add_one str s = if has str s then s else str ∷ s

unfoldable pub add : List String → List String → List String
unfolding has
add [] s = s
add (str ∷ strs) s = add strs (add_one str s)

abbrev pub folded : String → Bool → String
folded str case_sensitive = if not case_sensitive then to_lower str else str

abbrev without : String → List String → List String
without str [] = []
without str (k ∷ s) = let rest = without str s in if k == str then rest else k ∷ rest

-- set.Remove
unfoldable pub remove : String → Bool → List String → List String
unfolding to_lower
remove str case_sensitive s = without (folded str case_sensitive) s

-- set.Contains
unfoldable pub contains : String → Bool → List String → Bool
contains str case_sensitive s = has (folded str case_sensitive) s

-- SimpleRequestMethods, SimpleRequestHeaders and SimpleRequestContentTypes
abbrev pub simple_request_methods : List String
simple_request_methods = "GET" ∷ "HEAD" ∷ "POST" ∷ []

abbrev pub simple_request_headers : List String
simple_request_headers = "Accept" ∷ "Accept-Language" ∷ "Content-Language" ∷ "Content-Type" ∷ []

abbrev pub simple_request_content_types : List String
simple_request_content_types =
    "application/x-www-form-urlencoded" ∷ "multipart/form-data" ∷ "text/plain" ∷ []

all_contained : Dict (List String) → List String → Bool
all_contained [] s = true
all_contained ((k, v) ∷ header) s =
    let rest = all_contained header s in if not (contains k false s) then false else rest

-- headersAreAllowed
unfoldable pub headers_are_allowed : Request → List String → Bool
unfolding all_contained
headers_are_allowed r s = all_contained r.header s

-- methodIsAllowed
unfoldable pub method_is_allowed : Request → List String → Bool
method_is_allowed r s = contains r.method true s

unfoldable pub types_allowed : Bool → List String → List String → Bool
types_allowed res [] s = res
types_allowed res (val ∷ ct) s = types_allowed (res && contains val false s) ct s

abbrev pub or_empty : Option (List String) → List String
or_empty none = []
or_empty (some vs) = vs

-- contentTypeIsAllowed
unfoldable pub content_type_is_allowed : Request → List String → Bool
unfolding types_allowed
content_type_is_allowed r s =
    types_allowed false (or_empty (header_values "Content-Type" r.header)) s

-- originIsPresent
unfoldable pub origin_is_present : Request → Bool
origin_is_present r = if not (get_header "Origin" r.header == "") then true else false
