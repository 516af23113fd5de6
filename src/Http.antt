-- ===== src/Http.antt =====
-- net/http as the handlers of the library see it: headers, the request, the response writer, and a
-- handler as a function on the pair of these that returns or panics. A handler is handed pointers,
-- so what it changes in the request's URL or in the response is what its caller finds afterwards.
mod Header
unfoldable pub use Header.*
use xhttp.Prelude.{ℕ, String, Option, none, some, List, [], ◌∷◌, ◌++◌, Bool, if◌then◌else◌, nat_eq}
use xhttp.Prelude.Dict.{Dict}
use xhttp.Context.{CtxValue, HttpCookie}
use Prim.Native.String

-- context.Context, as the list of the values put in, the latest first. A key is a pointer, and
-- stands here as its identity.
abbrev pub Ctx : Type 0
Ctx = List (ℕ × CtxValue)

-- ctx.Value(key)
unfoldable pub ctx_value : ℕ → Ctx → Option CtxValue
ctx_value key [] = none
ctx_value key ((k, v) ∷ ctx) = if nat_eq k key then some v else ctx_value key ctx

-- context.WithValue(ctx, key, v)
abbrev pub with_value : ℕ → CtxValue → Ctx → Ctx
with_value key v ctx = (key, v) ∷ ctx

pub record Request : Type 0 where
  pub method : String
  pub scheme : String
  pub path : String
  pub header : Dict (List String)
  pub cookies : List HttpCookie
  pub ctx : Ctx

-- `sent` is the status and the headers as they were when the status line was written; what is done
-- to the headers afterwards does not reach the client.
pub record Response : Type 0 where
  pub header : Dict (List String)
  pub sent : Option (ℕ × Dict (List String))
  pub body : List String

pub record Exchange : Type 0 where
  pub req : Request
  pub res : Response

pub data Outcome : Type 0 where
  returned : Exchange → Outcome
  panicked : String → Exchange → Outcome

abbrev pub Handler : Type 0
Handler = Exchange → Outcome

infixl 5 ◌>>=◌
abbrev pub ◌>>=◌ : Outcome → (Exchange → Outcome) → Outcome
returned x >>= f = f x
panicked msg x >>= f = panicked msg x

-- w.WriteHeader(code): only the first call counts.
write_header : ℕ → Response → Response
write_header code w = elim w.sent [ none ↦ record w { sent = some (code, w.header) } | some s ↦ w ]

-- w.Write(b): the status is 200 if none was written.
unfoldable pub write : String → Response → Response
unfolding write_header
write b w = let w' = write_header 200 w in record w' { body = w'.body ++ b ∷ [] }

-- http.Error, on the response.
unfoldable pub error_response : String → ℕ → Response → Response
unfolding write write_header add_header set_header del_header
error_response msg code w =
    let h =
      set_header "Content-Type" "text/plain; charset=utf-8"
        (del_header "Content-Length" w.header) in
    let h' = set_header "X-Content-Type-Options" "nosniff" h in
    write (String.◌++◌ msg "\n") (write_header code (record w { header = h' }))

unfoldable pub http_error : String → ℕ → Exchange → Exchange
unfolding error_response
http_error msg code x = record x { res = error_response msg code x.res }

-- `if next != nil { next.ServeHTTP(w, r) }`
abbrev pub serve_next : Option Handler → Handler
serve_next none x = returned x
serve_next (some h) x = h x

-- The call of a handler with a copy of the request that has another context: the caller's request
-- keeps its own context, and shares its URL with the copy.
abbrev restore : Ctx → Outcome → Outcome
restore ctx (returned x) = returned (record x { req = record x.req { ctx = ctx } })
restore ctx (panicked msg x) = panicked msg (record x { req = record x.req { ctx = ctx } })

abbrev pub with_context : Ctx → Handler → Handler
with_context ctx h x = restore x.req.ctx (h (record x { req = record x.req { ctx = ctx } }))

-- The response that a handler leaves, whether it returns or panics.
abbrev pub response : Outcome → Response
response (returned x) = x.res
response (panicked msg x) = x.res

abbrev pub status : Outcome → Option ℕ
status o = elim (response o).sent [ none ↦ none | some (code, _) ↦ some code ]
