-- ===== src/Mux/Register.antt =====
-- multiplexer.go: NewServeMux, muxCheck, the registration of handlers and USE.
use Prim.Native.String.{◌++◌}
use xhttp.Prelude.{
  String, Option, none, some, List, [], ◌∷◌, Bool, true, false, ◌||◌, not, if◌then◌else◌, ◌==◌,
}
use xhttp.Prelude.{◌++◌ as append}
use xhttp.Prelude.Dict.{Dict, insert, get_or}
use xhttp.Http.{Handler}
use xhttp.Linker.{Linker, chain}
use xhttp.Mux.Verbs.{VerbHandlers, no_handlers, register}

pub data Owner : Type 0 where
  this_mux another : Owner

-- What net/http supplies: `Mux` is the state of an http.ServeMux, `found m method pattern` what its
-- method Handler answers for a request of that method and URL (who owns the handler and the pattern
-- it was registered under), `handle m pattern` its state after Handle(pattern, sm), `none` where
-- Handle panics, and `is_request` whether http.NewRequest accepts the method and the URL.
pub record NetMux : Type 1 where
  pub Mux : Type 0
  pub new_mux : Mux
  pub found : Mux → String → String → Owner × String
  pub handle : Mux → String → Option Mux
  pub is_request : String → String → Bool

-- The field catchAll: initcatchall{nil}, a nil interface, or a chain.
pub data CatchAll : Type 0 where
  initial : CatchAll
  absent : CatchAll
  chained : List Linker → CatchAll

module _ (net : NetMux) where
  open net use {Mux, new_mux, found, handle, is_request}

  pub record ServeMux : Type 0 where
    pub catch_all : CatchAll
    pub routes : Dict VerbHandlers
    pub mux : Mux
    pub init_err : List String

  -- NewServeMux
  abbrev pub new_serve_mux : ServeMux
  new_serve_mux = record { catch_all = initial; routes = []; mux = new_mux; init_err = [] }

  abbrev pub fail : String → ServeMux → ServeMux
  fail msg sm = record sm { init_err = append sm.init_err (msg ∷ []) }

  abbrev is_this : Owner → Bool
  is_this this_mux = true
  is_this another = false

  abbrev pub message : String → String → String → String
  message method pattern what = method ++ " " ++ pattern ++ what

  abbrev handled : ServeMux → Option Mux → Option ServeMux
  handled sm none = none
  handled sm (some m) = some (record sm { mux = m })

  -- The end of muxCheck, on what the underlying multiplexer has found.
  check_found : ServeMux → String → String → Owner × String → Option ServeMux
  check_found sm method pattern (owner, path) =
      if path == "" || not (path == pattern)
      then handled sm (handle sm.mux pattern)
      else if is_this owner
      then some sm
      else some (fail (message method pattern ": request handler already exists\n") sm)

  -- muxCheck
  unfoldable pub mux_check : ServeMux → String → String → Option Handler → Option ServeMux
  unfolding check_found
  mux_check sm method pattern none =
      some (fail (message method pattern ": request handler nil\n") sm)
  mux_check sm method pattern (some h) =
      if pattern == ""
      then some (fail (message method pattern ": request pattern invalid\n") sm)
      else if not (is_request method pattern)
      then some (fail (message method pattern ": request handler nil\n") sm)
      else check_found sm method pattern (found sm.mux method pattern)

  abbrev pub stored : String → (VerbHandlers → VerbHandlers) → Option ServeMux → Option ServeMux
  stored pattern change none = none
  stored pattern change (some sm) = some (record sm {
    routes = insert pattern (change (get_or pattern no_handlers sm.routes)) sm.routes;
  })

  -- GET, which registers the handler for HEAD too
  unfoldable pub register_get : ServeMux → String → Option Handler → Option ServeMux
  unfolding register mux_check
  register_get sm pattern h =
      stored pattern (λ v. record v { get = register h v.get; head = register h v.head })
        (mux_check sm "GET" pattern h)

  -- POST
  unfoldable pub register_post : ServeMux → String → Option Handler → Option ServeMux
  unfolding register mux_check
  register_post sm pattern h =
      stored pattern (λ v. record v { post = register h v.post }) (mux_check sm "POST" pattern h)

  -- PUT
  unfoldable pub register_put : ServeMux → String → Option Handler → Option ServeMux
  unfolding register mux_check
  register_put sm pattern h =
      stored pattern (λ v. record v { put = register h v.put }) (mux_check sm "PUT" pattern h)

  -- PATCH
  unfoldable pub register_patch : ServeMux → String → Option Handler → Option ServeMux
  unfolding register mux_check
  register_patch sm pattern h =
      stored pattern (λ v. record v { patch = register h v.patch }) (mux_check sm "PATCH" pattern h)

  -- DELETE
  unfoldable pub register_delete : ServeMux → String → Option Handler → Option ServeMux
  unfolding register mux_check
  register_delete sm pattern h =
      stored pattern (λ v. record v { delete = register h v.delete })
        (mux_check sm "DELETE" pattern h)

  -- OPTIONS
  unfoldable pub register_options : ServeMux → String → Option Handler → Option ServeMux
  unfolding register mux_check
  register_options sm pattern h =
      stored pattern (λ v. record v { options = register h v.options })
        (mux_check sm "OPTIONS" pattern h)

  -- CONNECT
  unfoldable pub register_connect : ServeMux → String → Option Handler → Option ServeMux
  unfolding register mux_check
  register_connect sm pattern h =
      stored pattern (λ v. record v { connect = register h v.connect })
        (mux_check sm "CONNECT" pattern h)

  -- TRACE
  unfoldable pub register_trace : ServeMux → String → Option Handler → Option ServeMux
  unfolding register mux_check
  register_trace sm pattern h =
      stored pattern (λ v. record v { trace = register h v.trace }) (mux_check sm "TRACE" pattern h)

  abbrev catch_all_of : Option (List Linker) → CatchAll
  catch_all_of none = absent
  catch_all_of (some c) = chained c

  use_at : CatchAll → Option (List Linker) → ServeMux → ServeMux
  use_at initial linkable sm = record sm { catch_all = catch_all_of linkable }
  use_at other linkable sm = fail "USE has already been called once.\n" sm

  -- USE
  unfoldable pub use_all : ServeMux → List Linker → ServeMux
  unfolding use_at chain
  use_all sm handlers = use_at sm.catch_all (chain handlers) sm
