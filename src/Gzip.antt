-- ===== src/Gzip.antt =====
-- handlers/compression/gzip.go: Gzipper, NewHandler, Skip and ServeHTTP. What a later handler writes
-- to the compressing writer is a parameter: the body texts go through `compress`, and the flush that
-- ends the answer may fail.
use xhttp.Prelude.{
  String, Bool, true, false, Option, none, some, List, [], ◌∷◌, not, if◌then◌else◌, map, ◌≡◌, ◌≢◌,
  refl, ◌==◌, is_some, arith,
}
use xhttp.Prelude.Text.{to_upper, contains}
use xhttp.Prelude.Dict.{Dict, lookup, insert}
use xhttp.Http.{
  Exchange, Request, Response, Handler, Outcome, returned, panicked, ◌>>=◌, serve_next, get_header,
  add_header, set_header,
}
mod Laws
mod Examples

-- Gzipper without its pool
pub record Gzipper : Type 0 where
  pub skip : Dict Bool

-- NewHandler
unfoldable pub new_handler : Gzipper
new_handler = record {
  skip =
      ("GET", false)
      ∷ ("POST", false)
      ∷ ("PUT", false)
      ∷ ("PATCH", false)
      ∷ ("DELETE", false)
      ∷ ("HEAD", false)
      ∷ ("OPTIONS", false)
      ∷ [];
}

-- Skip, where `none` is the panic on a method that is not valid
unfoldable pub skip_method : String → Gzipper → Option Gzipper
unfolding to_upper lookup insert
skip_method method g =
    if not (is_some (lookup (to_upper method) g.skip))
    then none
    else some (record g { skip = insert method true g.skip })

abbrev pub set_to_true : Option Bool → Bool
set_to_true none = false
set_to_true (some b) = b

-- The first test of ServeHTTP
unfoldable pub must_skip : Gzipper → String → Bool
unfolding to_upper lookup
must_skip g method = set_to_true (lookup (to_upper method) g.skip)

-- The compressing writer: `wrap` runs a handler with the compressing writer in place of the plain
-- one, and `close` flushes what it holds, `none` on an error.
pub record Compression : Type 0 where
  pub wrap : Handler → Handler
  pub close : Response → Option Response

abbrev on_header : (Dict (List String) → Dict (List String)) → Exchange → Exchange
on_header f x = record x { res = record x.res { header = f x.res.header } }

abbrev closed : Exchange → Option Response → Outcome
closed x none = panicked "close" x
closed x (some w) = returned (record x { res = w })

-- Gzipper.ServeHTTP
unfoldable pub gzip_serve : Compression → Gzipper → Option Handler → Handler
unfolding must_skip contains
gzip_serve c g next x =
    if must_skip g x.req.method
    then serve_next next x
    else (let y = on_header (add_header "Vary" "Accept-Encoding") x in
        if not (contains (get_header "Accept-Encoding" x.req.header) "gzip")
        then serve_next next y
        else (c.wrap (serve_next next) (on_header (set_header "Content-Encoding" "gzip") y)
            >>= (λ z. closed z (c.close z.res))))
