-- ===== src/Cors/Untouched.antt =====
-- The headers of a granted preflight answer, and the one that the preflight handler never writes.
use mathlib.Core.Option.{some_inj}
use xhttp.Prelude.{
  ◌≡◌, refl, sym, ◌∙◌, ap, ◌⊎◌, inl, inr, String, Bool, true, false, Option, none, some, List, [],
  ◌∷◌, not, if◌then◌else◌,
}
use xhttp.Prelude.Dict.{lookup}
use xhttp.Prelude.Int.{is_zero}
use xhttp.Prelude.Text.{itoa}
use xhttp.Http.{Request, Response, header_values, add_header, lookup-add_header, lookup-set_header}
use xhttp.Cors.Sets.{origin_is_present}
use xhttp.Cors.Serve.{on_header, set_allow_credentials}
use xhttp.Cors.Laws.{lookup-add_each}
use xhttp.Cors.Preflight.{
  Preflight, preflight, check_origin, check_method, check_headers, grant, write_max_age,
  whole_seconds,
}

-- The methods that a response allows.
abbrev pub methods_of : Response → Option (List String)
methods_of w = lookup "Access-Control-Allow-Methods" w.header

-- The origin that a response allows.
abbrev pub origin_of : Response → Option (List String)
origin_of w = lookup "Access-Control-Allow-Origin" w.header

pub taken :
    {A : Type 0} (b : Bool) (a a' : A) (o : Option A)
    → (if not b then some a else o) ≡ some a'
    → (a ≡ a') ⊎ ((b ≡ true) × (o ≡ some a'))
taken true a a' o e = inr (refl, e)
taken false a a' o e = inl (some_inj.0 e)

pub grant-methods :
    (p : Preflight) (method : String) (headers : List String) (w : Response)
    → methods_of (grant p method headers w) ≡ some (method ∷ [])
unfolding grant
grant-methods p method headers w =
    lookup-add_each "Access-Control-Allow-Headers" "Access-Control-Allow-Methods" headers _ refl
    ∙ lookup-set_header "Access-Control-Allow-Methods" "Access-Control-Allow-Methods" method _

max_age-origin :
    (b : Bool) (p : Preflight) (w : Response)
    → origin_of (if b then write_max_age (whole_seconds p.max_age) w else w) ≡ origin_of w
unfolding write_max_age
max_age-origin true p w =
    lookup-set_header "Access-Control-Max-Age" "Access-Control-Allow-Origin"
      (itoa (whole_seconds p.max_age)) w.header
max_age-origin false p w = refl

credentials-origin : (b : Bool) (w : Response) → origin_of (set_allow_credentials b w) ≡ origin_of w
unfolding set_allow_credentials
credentials-origin true w =
    lookup-set_header "Access-Control-Allow-Credentials" "Access-Control-Allow-Origin" "true"
      w.header
credentials-origin false w =
    lookup-set_header "Access-Control-Allow-Credentials" "Access-Control-Allow-Origin" "false"
      w.header

grant-origin :
    (p : Preflight) (method : String) (headers : List String) (w : Response)
    → origin_of (grant p method headers w) ≡ origin_of w
unfolding grant
grant-origin p method headers w =
    lookup-add_each "Access-Control-Allow-Headers" "Access-Control-Allow-Origin" headers _ refl
    ∙ lookup-set_header "Access-Control-Allow-Methods" "Access-Control-Allow-Origin" method _
    ∙ max_age-origin (not (is_zero p.max_age)) p _
    ∙ credentials-origin p.parameters.allow_credentials w

vary-origin :
    (v : String) (w : Response) → origin_of (on_header (add_header "Vary" v) w) ≡ origin_of w
vary-origin v w = lookup-add_header "Vary" "Access-Control-Allow-Origin" v w.header

check_headers-origin :
    (p : Preflight) (method : String) (o : Option (List String)) (w w' : Response)
    → check_headers p method o w ≡ some w'
    → origin_of w' ≡ origin_of w
unfolding check_headers
check_headers-origin p method none w w' e = ap origin_of (sym (some_inj.0 e))
check_headers-origin p method (some []) w w' e = absurd (cc)
check_headers-origin p method (some (h ∷ hs)) w w' e =
    elim (taken _ w w' (some (grant p method (h ∷ hs) w)) e) [
      | inl same ↦ ap origin_of (sym same)
      | inr (_, e') ↦ ap origin_of (sym (some_inj.0 e')) ∙ grant-origin p method (h ∷ hs) w
    ]

check_method-origin :
    (p : Preflight) (r : Request) (o : Option (List String)) (w w' : Response)
    → check_method p r o w ≡ some w'
    → origin_of w' ≡ origin_of w
unfolding check_method
check_method-origin p r none w w' e = ap origin_of (sym (some_inj.0 e))
check_method-origin p r (some []) w w' e = absurd (cc)
check_method-origin p r (some (method ∷ methods)) w w' e =
    elim (taken _ w w'
      (check_headers p method (header_values "Access-Control-Request-Headers" r.header)
        (on_header (add_header "Vary" "Access-Control-Request-Headers") w))
      e) [
        | inl same ↦ ap origin_of (sym same)
        | inr (_, e') ↦
            check_headers-origin p method _ _ w' e' ∙ vary-origin "Access-Control-Request-Headers" w
      ]

check_origin-origin :
    (p : Preflight) (r : Request) (o : Option (List String)) (w w' : Response)
    → check_origin p r o w ≡ some w'
    → origin_of w' ≡ origin_of w
unfolding check_origin
check_origin-origin p r none w w' e = ap origin_of (sym (some_inj.0 e))
check_origin-origin p r (some []) w w' e = absurd (cc)
check_origin-origin p r (some (origin ∷ origins)) w w' e =
    elim (taken _ w w'
      (check_method p r (header_values "Access-Control-Request-Method" r.header)
        (on_header (add_header "Vary" "Access-Control-Request-Method") w))
      e) [
        | inl same ↦ ap origin_of (sym same)
        | inr (_, e') ↦
            check_method-origin p r _ _ w' e' ∙ vary-origin "Access-Control-Request-Method" w
      ]

pub preflight-origin :
    (p : Preflight) (r : Request) (w w' : Response)
    → preflight p r w ≡ some w'
    → origin_of w' ≡ origin_of w
unfolding preflight
preflight-origin p r w w' e = elim (taken (origin_is_present r) w w' _ e) [
  | inl same ↦ ap origin_of (sym same)
  | inr (_, e') ↦ check_origin-origin p r _ _ w' e' ∙ vary-origin "Origin" w
]
