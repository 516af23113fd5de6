-- ===== src/Mux/Served.antt =====
-- What a request meets after a registration, and after USE.
use xhttp.Prelude.{
  ◌≡◌, ◌≢◌, refl, sym, ◌∙◌, ap, String, Option, none, some, List, [], ◌∷◌, Bool, true, false, arith,
  ◌==◌, eq_refl, Bool-cases, inl, inr,
}
use xhttp.Prelude.{◌++◌ as append}
use xhttp.Prelude.Dict.{Dict, lookup, insert, get_or, lookup-insert}
use xhttp.Prelude.Text.{to_upper}
use xhttp.Http.{Exchange, Handler, Outcome, panicked}
use xhttp.Linker.{Linker}
use xhttp.Mux.Verbs.{
  VerbHandlers, no_handlers, Transformable, transformable_serve, Verb, get, post, put, patch,
  delete, head, options, connect, trace, verb_of, verb_name, handler_for, register,
}
use xhttp.Mux.Route.{find_route}
use xhttp.Mux.Register.{
  NetMux, CatchAll, initial, absent, chained, ServeMux, mux_check, register_get, register_post,
  register_put, message, fail, stored, register_patch, register_delete, register_options,
  register_connect, register_trace, use_all,
}
use xhttp.Mux.Dispatch.{guarded, serve_catch_all, serve_http}

verb_of-verb_name : (v : Verb) → verb_of (verb_name v) ≡ some v
unfolding verb_of
verb_of-verb_name get = refl
verb_of-verb_name post = refl
verb_of-verb_name put = refl
verb_of-verb_name patch = refl
verb_of-verb_name delete = refl
verb_of-verb_name head = refl
verb_of-verb_name options = refl
verb_of-verb_name connect = refl
verb_of-verb_name trace = refl

find_route-exact :
    (path : String) (m : Dict VerbHandlers) (v : VerbHandlers)
    → lookup path m ≡ some v
    → find_route path m ≡ (path, v)
find_route-exact path m v e = (unfold find_route in rw e)

append-ne-nil : (es : List String) (e : String) → append es (e ∷ []) ≢ []
append-ne-nil [] e h = cc
append-ne-nil (d ∷ es) e h = cc

transformable_serve-unset :
    (t : Transformable)
    → t.output ≡ none
    → transformable_serve t ≡ (λ y. panicked "invalid memory address or nil pointer dereference" y)
transformable_serve-unset t bare = (unfold transformable_serve in rw (bare, transformable_serve))

guarded-append :
    (es : List String) (e : String) (c : CatchAll) (x : Exchange) (served : Outcome × CatchAll)
    → (msg : String) × ((guarded (append es (e ∷ [])) c x served).0 ≡ panicked msg x)
unfolding guarded
guarded-append [] e c x served = (_, refl)
guarded-append (d ∷ es) e c x served = (_, refl)

abbrev is_settled : CatchAll → Bool
is_settled initial = false
is_settled absent = true
is_settled (chained c) = true

module _ (net : NetMux) where
  -- The method that registers a handler for a verb; GET is the one that does so for HEAD.
  abbrev pub register_for : Verb → ServeMux net → String → Option Handler → Option (ServeMux net)
  register_for get = register_get net
  register_for post = register_post net
  register_for put = register_put net
  register_for patch = register_patch net
  register_for delete = register_delete net
  register_for head = register_get net
  register_for options = register_options net
  register_for connect = register_connect net
  register_for trace = register_trace net

  -- What a registration for a verb changes.
  abbrev set_for : Verb → Option Handler → VerbHandlers → VerbHandlers
  set_for get h v = record v { get = register h v.get; head = register h v.head }
  set_for post h v = record v { post = register h v.post }
  set_for put h v = record v { put = register h v.put }
  set_for patch h v = record v { patch = register h v.patch }
  set_for delete h v = record v { delete = register h v.delete }
  set_for head h v = record v { get = register h v.get; head = register h v.head }
  set_for options h v = record v { options = register h v.options }
  set_for connect h v = record v { connect = register h v.connect }
  set_for trace h v = record v { trace = register h v.trace }

  -- muxCheck leaves the routes and catchAll alone, and lets no empty pattern pass unrecorded.
  record IsChecked (sm sm' : ServeMux net) (pattern : String) : Type 0 where
    same_routes : sm'.routes ≡ sm.routes
    same_catch_all : sm'.catch_all ≡ sm.catch_all
    named : sm'.init_err ≡ [] → (pattern == "") ≡ false

  mux_check-IsChecked :
      (sm : ServeMux net) (method pattern : String) (h : Option Handler) {sm' : ServeMux net}
      → mux_check net sm method pattern h ≡ some sm'
      → IsChecked sm sm' pattern
  unfolding mux_check
  mux_check-IsChecked sm method pattern none e =
      let msg : String = message net method pattern ": request handler nil\n" in
      record {
        same_routes = ground arith;
        same_catch_all = ground arith;
        named = λ ok. absurd (append-ne-nil sm.init_err msg (cc (e, ok)));
      }
  mux_check-IsChecked sm method pattern (some h) {sm'} e = elim (Bool-cases (pattern == "")) [
    | inl empty ↦
        let msg : String = message net method pattern ": request pattern invalid\n" in
        let e' : fail net msg sm ≡ sm' = ground arith in
        record {
          same_routes = ground arith;
          same_catch_all = ground arith;
          named = λ ok. absurd (append-ne-nil sm.init_err msg (ap (λ s. s.init_err) e' ∙ ok));
        }
    | inr named ↦ record {
      same_routes = ground arith;
      same_catch_all = ground arith;
      named = λ ok. named;
    }
  ]

  serve-exact :
      (sm : ServeMux net) (x : Exchange) (v : Verb) (hs : VerbHandlers)
      → sm.init_err ≡ []
      → (x.req.path == "") ≡ false
      → lookup x.req.path sm.routes ≡ some hs
      → verb_of (to_upper x.req.method) ≡ some v
      → serve_http net sm x
        ≡ serve_catch_all sm.catch_all (transformable_serve (handler_for v hs)) x
  unfolding serve_http
  serve-exact sm x v hs ok named found verb =
      rw (ok, find_route-exact x.req.path sm.routes hs found, named, verb)

  -- The state after a registration that has not failed.
  abbrev stored_at : (ServeMux net) → String → (VerbHandlers → VerbHandlers) → ServeMux net
  stored_at sm pattern change = record sm {
    routes = insert pattern (change (get_or pattern no_handlers sm.routes)) sm.routes;
  }

  serve-stored :
      (sm : ServeMux net) (pattern : String) (change : VerbHandlers → VerbHandlers) (v : Verb)
      (h : Handler) (x : Exchange)
      → ((hs : VerbHandlers)
          → handler_for v (change hs) ≡ record { input = some h; output = some h })
      → sm.init_err ≡ []
      → (pattern == "") ≡ false
      → x.req.path ≡ pattern
      → to_upper x.req.method ≡ verb_name v
      → serve_http net (stored_at sm pattern change) x ≡ serve_catch_all sm.catch_all h x
  serve-stored sm pattern change v h x sets ok named path method =
      let hs : VerbHandlers = change (get_or pattern no_handlers sm.routes) in
      serve-exact (stored_at sm pattern change) x v hs ok (rw path named)
        (rw path (lookup-insert pattern pattern hs sm.routes ∙ rw eq_refl))
        (rw method (verb_of-verb_name v))
      ∙ ap (λ t. serve_catch_all sm.catch_all (transformable_serve t) x) (sets _)
      ∙ (unfold transformable_serve in refl)

  stored-eq-some :
      (pattern : String) (change : VerbHandlers → VerbHandlers) (o : Option (ServeMux net))
      {sm' : ServeMux net}
      → stored net pattern change o ≡ some sm'
      → (sm : ServeMux net) × (o ≡ some sm) × (stored_at sm pattern change ≡ sm')
  stored-eq-some pattern change none e = absurd (cc)
  stored-eq-some pattern change (some sm) e = (sm, refl, cc)

  registered :
      (sm : ServeMux net) (name pattern : String) (change : VerbHandlers → VerbHandlers) (v : Verb)
      (h : Handler) (x : Exchange) {sm' : ServeMux net}
      → ((hs : VerbHandlers)
          → handler_for v (change hs) ≡ record { input = some h; output = some h })
      → stored net pattern change (mux_check net sm name pattern (some h)) ≡ some sm'
      → sm'.init_err ≡ []
      → x.req.path ≡ pattern
      → to_upper x.req.method ≡ verb_name v
      → serve_http net sm' x ≡ serve_catch_all sm.catch_all h x
  registered sm name pattern change v h x {sm'} sets e ok path method =
      let (s, checked, same) =
        stored-eq-some pattern change (mux_check net sm name pattern (some h)) e in
      let c : IsChecked sm s pattern = mux_check-IsChecked sm name pattern (some h) checked in
      let ok' : s.init_err ≡ [] = ap (λ t. t.init_err) same ∙ ok in
      ap (λ t. serve_http net t x) (sym same)
      ∙ serve-stored s pattern change v h x sets ok' (c.named ok') path method
      ∙ ap (λ t. serve_catch_all t h x) c.same_catch_all

  -- After a handler has been registered for a verb at a pattern, and no registration has failed, a
  -- request for exactly this path with a method that is the verb in any case is served by this
  -- handler, linked behind catchAll. The method GET registers for the verbs GET and HEAD.
  pub serve_http-register_for :
      (v : Verb) (sm : ServeMux net) (pattern : String) (h : Handler) (x : Exchange)
      {sm' : ServeMux net}
      → register_for v sm pattern (some h) ≡ some sm'
      → sm'.init_err ≡ []
      → x.req.path ≡ pattern
      → to_upper x.req.method ≡ verb_name v
      → serve_http net sm' x ≡ serve_catch_all sm.catch_all h x
  unfolding register register_get register_post register_put register_patch register_delete
      register_options register_connect register_trace
  serve_http-register_for get sm pattern h x e =
      registered sm "GET" pattern (set_for get (some h)) get h x (λ hs. refl) e
  serve_http-register_for post sm pattern h x e =
      registered sm "POST" pattern (set_for post (some h)) post h x (λ hs. refl) e
  serve_http-register_for put sm pattern h x e =
      registered sm "PUT" pattern (set_for put (some h)) put h x (λ hs. refl) e
  serve_http-register_for patch sm pattern h x e =
      registered sm "PATCH" pattern (set_for patch (some h)) patch h x (λ hs. refl) e
  serve_http-register_for delete sm pattern h x e =
      registered sm "DELETE" pattern (set_for delete (some h)) delete h x (λ hs. refl) e
  serve_http-register_for head sm pattern h x e =
      registered sm "GET" pattern (set_for head (some h)) head h x (λ hs. refl) e
  serve_http-register_for options sm pattern h x e =
      registered sm "OPTIONS" pattern (set_for options (some h)) options h x (λ hs. refl) e
  serve_http-register_for connect sm pattern h x e =
      registered sm "CONNECT" pattern (set_for connect (some h)) connect h x (λ hs. refl) e
  serve_http-register_for trace sm pattern h x e =
      registered sm "TRACE" pattern (set_for trace (some h)) trace h x (λ hs. refl) e

  -- A request for a registered path with a verb that has no handler there panics, before and after
  -- USE alike, unless a handler of the chain keeps the request from the end of the chain: what it is
  -- served by is catchAll linked to a handler that panics on every request.
  pub serve_http-unregistered :
      (sm : ServeMux net) (x : Exchange) (v : Verb) (hs : VerbHandlers)
      → sm.init_err ≡ []
      → (x.req.path == "") ≡ false
      → lookup x.req.path sm.routes ≡ some hs
      → verb_of (to_upper x.req.method) ≡ some v
      → (handler_for v hs).output ≡ none
      → serve_http net sm x
        ≡ serve_catch_all sm.catch_all
            (λ y. panicked "invalid memory address or nil pointer dereference" y)
            x
  serve_http-unregistered sm x v hs ok named found verb bare =
      serve-exact sm x v hs ok named found verb
      ∙ ap (λ k. serve_catch_all sm.catch_all k x)
          (transformable_serve-unset (handler_for v hs) bare)

  use_all-is_settled :
      (sm : ServeMux net) (ls : List Linker) → is_settled (use_all net sm ls).catch_all ≡ true
  unfolding use_all
  use_all-is_settled sm ls = ground arith

  use_all-fail :
      (sm : ServeMux net) (ls : List Linker)
      → is_settled sm.catch_all ≡ true
      → use_all net sm ls ≡ fail net "USE has already been called once.\n" sm
  unfolding use_all
  use_all-fail sm ls h = ground arith

  serve_http-fail :
      (sm : ServeMux net) (err : String) (x : Exchange)
      → (msg : String) × ((serve_http net (fail net err sm) x).0 ≡ panicked msg x)
  unfolding serve_http
  serve_http-fail sm err x = guarded-append sm.init_err err sm.catch_all x _

  -- After two calls of USE, whatever was registered, every request panics.
  pub serve_http-use_all-use_all :
      (sm : ServeMux net) (ls ms : List Linker) (x : Exchange)
      → (msg : String) × ((serve_http net (use_all net (use_all net sm ls) ms) x).0
          ≡ panicked msg x)
  serve_http-use_all-use_all sm ls ms x =
      rw (use_all-fail (use_all net sm ls) ms (use_all-is_settled sm ls))
        (serve_http-fail (use_all net sm ls) "USE has already been called once.\n" x)
