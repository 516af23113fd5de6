-- ===== src/Dynamux.antt =====
-- handlers/dynamux/link.go: Link, WithHandler, Link.ServeHTTP, Multiplexer, AddLink, pathExists and
-- Multiplexer.ServeHTTP. Times are nanoseconds from a fixed instant.
use xhttp.Prelude.{
  ℕ, ◌≤◌, ◌<◌, ◌+◌, ◌≡◌, refl, String, Bool, true, false, Option, none, some, List, [], ◌∷◌, not,
  ◌&&◌, if◌then◌else◌, ltb, is_some, arith,
}
use xhttp.Prelude.Int.{ℤ, pos, ◌+ℤ◌, ltb_ℤ}
use xhttp.Prelude.Text.{has_suffix}
use xhttp.Prelude.Dict.{Dict, lookup, insert}
use xhttp.Http.{
  Exchange, Request, Response, Handler, Outcome, returned, panicked, ◌>>=◌, serve_next, http_error,
}
use Prim.Native.String.{len}
use text.Mathlib.Text.{starts_with}
mod Laws
mod Examples

-- Link: `proxied` tells whether a proxy is set. The last three fields stand for what the link does
-- in the end: the fetch through its proxy, or a redirection to its destination.
pub record Link : Type 0 where
  pub uid : String
  pub path : String
  pub proxied : Bool
  pub active : Bool
  pub created_at : ℤ
  pub max_age : ℤ
  pub handler : Option Handler
  pub fetch : Handler
  pub redirect : Handler

-- NewLink at the time `now`. `fetch` and `redirect` are the handlers that the destination gives.
unfoldable pub new_link : ℤ → String → String → ℤ → Bool → Handler → Handler → Link
new_link now id path maxage proxy fetch redirect = record {
  uid = id;
  path = path;
  proxied = proxy;
  active = true;
  created_at = now;
  max_age = maxage;
  handler = none;
  fetch = fetch;
  redirect = redirect;
}

-- NewMultiplexer
abbrev pub new_multiplexer : Dict Link
new_multiplexer = []

-- WithHandler
unfoldable pub with_handler : Handler → Link → Link
with_handler h l = record l { handler = some h }

-- Link.ServeHTTP at the time `now`
unfoldable pub link_serve : ℤ → Link → Handler
unfolding ◌+ℤ◌
link_serve now l x =
    if not l.active
    then returned (http_error "Error: Link is inactive" 404 x)
    else if ltb_ℤ l.max_age (pos 0)
    then returned (http_error "Error: Link has expired" 404 x)
    else if ltb_ℤ now (l.created_at +ℤ l.max_age)
    then returned (http_error "Error: Link has expired" 404 x)
    else (serve_next l.handler x >>= (λ y. if l.proxied then l.fetch y else l.redirect y))

-- AddLink
unfoldable pub add_links : List Link → Dict Link → Dict Link
unfolding insert
add_links [] links = links
add_links (lnk ∷ more) links = add_links more (insert lnk.path lnk links)

-- The loop of pathExists over the routes, in the order of the `range`.
unfoldable pub longest : String → Dict Link → Bool × String → Bool × String
longest path [] (ok, found) = (ok, found)
longest path ((route, l) ∷ links) (ok, found) = longest path links (
    if has_suffix path "/" && starts_with route path && ltb (len found) (len route)
    then (true, route)
    else (ok, found))

-- pathExists
unfoldable pub path_exists : String → Dict Link → Bool × String
unfolding lookup longest
path_exists path links =
    if is_some (lookup path links) then (true, path) else longest path links (false, "")

abbrev pub served_link : ℤ → Option Link → Handler
served_link now none x = returned (http_error "404 page not found" 404 x)
served_link now (some l) x = link_serve now l x

-- Multiplexer.ServeHTTP
unfoldable pub dynamux_serve : ℤ → Dict Link → Handler
unfolding path_exists lookup
dynamux_serve now links x = served_link now (lookup (path_exists x.req.path links).1 links) x
