-- ===== src/Filters.antt =====
-- The small handlers that look at a request before they pass it on: handlers/hsts/handler.go,
-- handlers/stripprefix/handler.go, handlers/https/redirect.go and handlers/panic/handler.go.
use xhttp.Prelude.{
  ℕ, ◌≤◌, ◌<◌, ◌≡◌, refl, String, Bool, true, false, Option, none, some, List, [], ◌∷◌,
  if◌then◌else◌, ◌==◌, ltb, arith, eq_iff, eq_refl,
}
use xhttp.Prelude.Int.{ℤ}
use xhttp.Prelude.Text.{itoa, trim_prefix}
use xhttp.Http.{
  Exchange, Request, Response, Handler, Outcome, returned, panicked, serve_next, http_error,
  add_header, set_header,
}
use Prim.Native.String
use Prim.Native.String.{len}
mod Laws
mod Examples

-- hsts.Handler
pub record Hsts : Type 0 where
  pub m : ℤ
  pub include_sub_domains : Bool

-- hsts.Handler.ServeHTTP
unfoldable pub hsts_serve : Hsts → Option Handler → Handler
unfolding itoa
hsts_serve h next x =
    let age = String.◌++◌ "max-age=" (itoa h.m) in
    let value = if h.include_sub_domains then String.◌++◌ age "; includeSubDomains" else age in
    serve_next next (record x {
      res = record x.res { header = add_header "Strict-Transport-Security" value x.res.header };
    })

-- http.NotFound
unfoldable pub not_found : Exchange → Exchange
not_found x = http_error "404 page not found" 404 x

-- The second test of stripprefix.Handler.ServeHTTP: it changes the path of the request in place.
unfoldable pub strip : String → Option Handler → Handler
strip prefix next x =
    let p = trim_prefix x.req.path prefix in
    if ltb (len p) (len x.req.path)
    then serve_next next (record x { req = record x.req { path = p } })
    else returned (not_found x)

-- stripprefix.Handler.ServeHTTP
unfoldable pub stripprefix_serve : String → Option Handler → Handler
unfolding strip
stripprefix_serve prefix none x = strip prefix none x
stripprefix_serve prefix (some h) x = if prefix == "" then h x else strip prefix (some h) x

-- https.Redirect.ServeHTTP. `redirect` is net/http's Redirect to the URL of the request with a
-- status, by which the scheme is already the new one.
unfoldable pub redirect_serve : (ℕ → Exchange → Exchange) → Option Handler → Handler
redirect_serve redirect next x =
    if x.req.scheme == "https"
    then serve_next next x
    else returned (redirect 307 (record x { req = record x.req { scheme = "https" } }))

abbrev pub recovered : (String → Handler) → Outcome → Outcome
recovered handle (returned x) = returned x
recovered handle (panicked msg x) = handle msg x

abbrev guarded_next : Option Handler → Handler
guarded_next none x = panicked "Panic Handler was ill-registered" x
guarded_next (some h) x = h x

-- panic.Handler.ServeHTTP: the deferred function runs `handle` on what a panic carried.
unfoldable pub panic_serve : (String → Handler) → Option Handler → Handler
panic_serve handle next x = recovered handle (guarded_next next x)
