-- ===== src/Cors/Preflight.antt =====
-- handlers/cors/cors.go: PreflightHandler, its ServeHTTP, MaxAge and EnablePreflight.
use Prim.Native.Nat.{◌/◌}
use xhttp.Prelude.{
  ℕ, zero, suc, String, Bool, true, false, Option, none, some, List, [], ◌∷◌, ◌&&◌, ◌||◌, not,
  if◌then◌else◌,
}
use xhttp.Prelude.Int.{ℤ, pos, negsuc, is_zero}
use xhttp.Prelude.Text.{itoa}
use xhttp.Http.{
  Request, Response, Exchange, Handler, Outcome, panicked, serve_next, header_values, add_header,
  set_header,
}
use xhttp.Mux.Register.{NetMux, ServeMux, register_options}
use xhttp.Cors.Sets.{add, contains, origin_is_present}
use xhttp.Cors.Serve.{Parameters, on_header, add_each, set_allow_credentials}

-- PreflightHandler: `max_age` is MxAge, in nanoseconds.
pub record Preflight : Type 0 where
  pub parameters : Parameters
  pub max_age : ℤ

-- MaxAge
unfoldable pub set_max_age : ℤ → Preflight → Preflight
unfolding add
set_max_age t p = record {
  parameters = record p.parameters {
    allowed_headers = add ("Access-Control-Max-Age" ∷ []) p.parameters.allowed_headers;
  };
  max_age = t;
}

negated : ℕ → ℤ
negated zero = pos 0
negated (suc n) = negsuc n

-- int(t.Seconds()): the whole seconds of a duration, rounded towards zero.
unfoldable pub whole_seconds : ℤ → ℤ
unfolding negated
whole_seconds (pos n) = pos (n / 1000000000)
whole_seconds (negsuc n) = negated (suc n / 1000000000)

-- setMaxAge
unfoldable pub write_max_age : ℤ → Response → Response
unfolding itoa
write_max_age seconds w = on_header (set_header "Access-Control-Max-Age" (itoa seconds)) w

abbrev pub all_allowed : Bool → List String → List String → Bool
all_allowed ok [] s = ok
all_allowed ok (h ∷ hs) s = all_allowed (ok && contains h false s) hs s

-- The headers of a granted preflight request.
unfoldable pub grant : Preflight → String → List String → Response → Response
grant p method headers w =
    let w' = set_allow_credentials p.parameters.allow_credentials w in
    let w'' = if not (is_zero p.max_age) then write_max_age (whole_seconds p.max_age) w' else w' in
    add_each "Access-Control-Allow-Headers" headers
      (on_header (set_header "Access-Control-Allow-Methods" method) w'')

-- The three checks, one after the other. `none` is an index into an empty list of values.
unfoldable pub check_headers :
    Preflight → String → Option (List String) → Response → Option Response
check_headers p method none w = some w
check_headers p method (some []) w = none
check_headers p method (some (h ∷ hs)) w =
    if not (
      all_allowed (contains h false p.parameters.allowed_headers) (h ∷ hs)
        p.parameters.allowed_headers
      || contains "*" false p.parameters.allowed_headers)
    then some w
    else some (grant p method (h ∷ hs) w)

unfoldable pub check_method :
    Preflight → Request → Option (List String) → Response → Option Response
check_method p r none w = some w
check_method p r (some []) w = none
check_method p r (some (method ∷ more)) w =
    if not (
      contains method true p.parameters.allowed_methods
      || contains "*" true p.parameters.allowed_methods)
    then some w
    else check_headers p method (header_values "Access-Control-Request-Headers" r.header)
        (on_header (add_header "Vary" "Access-Control-Request-Headers") w)

unfoldable pub check_origin :
    Preflight → Request → Option (List String) → Response → Option Response
check_origin p r none w = some w
check_origin p r (some []) w = none
check_origin p r (some (origin ∷ more)) w =
    if not (
      contains origin true p.parameters.allowed_origins
      || contains "*" false p.parameters.allowed_origins)
    then some w
    else check_method p r (header_values "Access-Control-Request-Method" r.header)
        (on_header (add_header "Vary" "Access-Control-Request-Method") w)

-- PreflightHandler.ServeHTTP up to the call of the next handler, which every branch ends with.
unfoldable pub preflight : Preflight → Request → Response → Option Response
unfolding check_origin check_method check_headers grant
preflight p r w =
    if not (origin_is_present r)
    then some w
    else check_origin p r (header_values "Origin" r.header)
        (on_header (add_header "Vary" "Origin") w)

abbrev continue_with : Option Handler → Exchange → Option Response → Outcome
continue_with next x none = panicked "index out of range" x
continue_with next x (some w) = serve_next next (record x { res = w })

-- PreflightHandler.ServeHTTP
unfoldable pub serve_preflight : Preflight → Option Handler → Handler
serve_preflight p next x = continue_with next x (preflight p x.req x.res)

-- EnablePreflight: the handler for OPTIONS requests at the endpoint, with ten minutes of validity.
unfoldable pub enable_preflight :
    (net : NetMux) → Parameters → ServeMux net → String → Option (ServeMux net)
enable_preflight net p mux endpoint =
    register_options net mux endpoint
      (some (serve_preflight (record { parameters = p; max_age = pos 600000000000 }) none))
