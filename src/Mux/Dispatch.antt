-- ===== src/Mux/Dispatch.antt =====
-- multiplexer.go: ServeMux.ServeHTTP and initcatchall. The result holds the field catchAll as it is
-- afterwards, because Link on a chain writes into the slice.
use Prim.Native.String.{◌++◌}
use xhttp.Prelude.{String, Option, none, some, List, [], ◌∷◌, if◌then◌else◌, ◌==◌}
use xhttp.Prelude.Text.{to_upper}
use xhttp.Http.{Exchange, Handler, Outcome, returned, panicked, http_error}
use xhttp.Linker.{Linker, chain_link, chain_serve}
use xhttp.Mux.Verbs.{VerbHandlers, Verb, verb_of, handler_for, transformable_serve}
use xhttp.Mux.Route.{find_route}
use xhttp.Mux.Register.{NetMux, CatchAll, initial, absent, chained, ServeMux}

-- initcatchall.ServeHTTP
unfoldable pub init_catch_all_serve : Option Handler → Handler
init_catch_all_serve (some h) x = h x
init_catch_all_serve none x = returned (http_error "Method Not Allowed" 405 x)

abbrev serve_chain : List Linker → Option (List Linker) → Exchange → Outcome × CatchAll
serve_chain c none x = (panicked "Linking to nothing is impossible." x, chained c)
serve_chain c (some c') x = (chain_serve c' x, chained c')

-- sm.catchAll.Link(h).ServeHTTP(w, req)
unfoldable pub serve_catch_all : CatchAll → Handler → Exchange → Outcome × CatchAll
unfolding init_catch_all_serve chain_serve chain_link
serve_catch_all initial h x = (init_catch_all_serve (some h) x, initial)
serve_catch_all absent h x =
    (panicked "invalid memory address or nil pointer dereference" x, absent)
serve_catch_all (chained c) h x = serve_chain c (chain_link c h) x

abbrev concat : List String → String
concat [] = ""
concat (s ∷ ss) = s ++ concat ss

-- The switch on the method.
serve_method : CatchAll → VerbHandlers → Option Verb → Exchange → Outcome × CatchAll
serve_method c v none x = (returned (http_error "Method Not Allowed" 405 x), c)
serve_method c v (some verb) x = serve_catch_all c (transformable_serve (handler_for verb v)) x

serve_route : CatchAll → String × VerbHandlers → Exchange → Outcome × CatchAll
serve_route c (longest, v) x =
    if longest == "" then (returned x, c) else serve_method c v (verb_of (to_upper x.req.method)) x

-- The test of initErr that comes first.
unfoldable pub guarded : List String → CatchAll → Exchange → Outcome × CatchAll → Outcome × CatchAll
guarded [] c x served = served
guarded (e ∷ es) c x served = (panicked (concat (e ∷ es)) x, c)

module _ (net : NetMux) where
  -- ServeMux.ServeHTTP
  unfoldable pub serve_http : ServeMux net → Exchange → Outcome × CatchAll
  unfolding guarded serve_route serve_method
  serve_http sm x =
      guarded sm.init_err sm.catch_all x
        (serve_route sm.catch_all (find_route x.req.path sm.routes) x)
