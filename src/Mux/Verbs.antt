-- ===== src/Mux/Verbs.antt =====
-- multiplexer.go: transformableHandler and httpVerbFunctions.
use xhttp.Prelude.{String, Option, none, some, if◌then◌else◌, ◌==◌}
use xhttp.Http.{Handler, panicked}
use xhttp.Linker.{Linker, serve}

-- transformableHandler: `input` is its field `in`, `output` the embedded handler.
pub record Transformable : Type 0 where
  pub input : Option Handler
  pub output : Option Handler

-- The zero value.
abbrev pub unset : Transformable
unset = record { input = none; output = none }

-- transformableHandler.register
unfoldable pub register : Option Handler → Transformable → Transformable
register h t = record t { input = h; output = h }

-- transformableHandler.prepend
unfoldable pub prepend : Option Linker → Transformable → Transformable
prepend none t = t
prepend (some l) t = record t { output = some (serve (record l { next = t.input })) }

-- The promoted ServeHTTP: with no embedded handler it is a call through a nil interface.
unfoldable pub transformable_serve : Transformable → Handler
transformable_serve t x = elim t.output [
  | none ↦ panicked "invalid memory address or nil pointer dereference" x
  | some h ↦ h x
]

-- httpVerbFunctions
pub record VerbHandlers : Type 0 where
  pub get : Transformable
  pub post : Transformable
  pub put : Transformable
  pub patch : Transformable
  pub delete : Transformable
  pub head : Transformable
  pub options : Transformable
  pub connect : Transformable
  pub trace : Transformable

abbrev pub no_handlers : VerbHandlers
no_handlers = record {
  get = unset;
  post = unset;
  put = unset;
  patch = unset;
  delete = unset;
  head = unset;
  options = unset;
  connect = unset;
  trace = unset;
}

-- httpVerbFunctions.prepend
unfoldable pub prepend_all : Option Linker → VerbHandlers → VerbHandlers
unfolding prepend
prepend_all l v = record {
  get = prepend l v.get;
  post = prepend l v.post;
  put = prepend l v.put;
  patch = prepend l v.patch;
  delete = prepend l v.delete;
  head = prepend l v.head;
  options = prepend l v.options;
  connect = prepend l v.connect;
  trace = prepend l v.trace;
}

pub data Verb : Type 0 where
  get post put patch delete head options connect trace : Verb

-- The cases of the switch on the method, which is in upper case there.
unfoldable pub verb_of : String → Option Verb
verb_of m =
    if m == "GET"
    then some get
    else if m == "POST"
    then some post
    else if m == "PUT"
    then some put
    else if m == "PATCH"
    then some patch
    else if m == "DELETE"
    then some delete
    else if m == "HEAD"
    then some head
    else if m == "OPTIONS"
    then some options
    else if m == "CONNECT"
    then some connect
    else if m == "TRACE"
    then some trace
    else none

abbrev pub verb_name : Verb → String
verb_name get = "GET"
verb_name post = "POST"
verb_name put = "PUT"
verb_name patch = "PATCH"
verb_name delete = "DELETE"
verb_name head = "HEAD"
verb_name options = "OPTIONS"
verb_name connect = "CONNECT"
verb_name trace = "TRACE"

abbrev pub handler_for : Verb → VerbHandlers → Transformable
handler_for get v = v.get
handler_for post v = v.post
handler_for put v = v.put
handler_for patch v = v.patch
handler_for delete v = v.delete
handler_for head v = v.head
handler_for options v = v.options
handler_for connect v = v.connect
handler_for trace v = v.trace
