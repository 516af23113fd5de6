-- ===== src/Session/Setup.antt =====
-- handlers/session/session.go: New, Configure and its options, Spawn, Spawned, Parent, and Enforcer.
-- `none` is a panic.
pub mod Laws
mod Examples
use xhttp.Prelude.{
  ℕ, String, Bool, true, false, Option, none, some, List, [], ◌∷◌, not, ◌&&◌, if◌then◌else◌, ◌==◌,
  is_some,
}
use xhttp.Prelude.Int.{ℤ, pos}
use xhttp.Http.{Request, Response, Exchange, Outcome, returned, panicked, http_error}
use xhttp.Linker.{Linker, linkable_handler}
use xhttp.Session.Cookie.{Cookie, new_cookie, set_id}
use xhttp.Session.Codec.{Codec}
use xhttp.Session.Action.{Error, parent_invalid, State, Result, ok, err, crash}
use xhttp.Session.Handler.{Handler, Store, Cache}
use xhttp.Session.Load.{load}

-- Handler as a value: its cookie stands beside the rest. Of the parent, its handler and its cookie.
pub record Session (S : Type 0) : Type 0 where
  pub handler : Handler S
  pub secret : String
  pub cookie : Cookie
  pub parent : Option (Handler S × Cookie)

abbrev pub Configuration : Type 0 → Type 0
Configuration S = Session S → Session S

module _ {S : Type 0} where
  abbrev pub opted : Option (Configuration S) → Session S → Session S
  opted none h = h
  opted (some opt) h = opt h

  -- Configure: nil options are passed over.
  unfoldable pub configure : List (Option (Configuration S)) → Session S → Session S
  configure [] h = h
  configure (opt ∷ options) h = configure options (opted opt h)

  -- SetCookie
  abbrev pub set_cookie : Cookie → Configuration S
  set_cookie c h = record h { cookie = c }

  -- SetMaxage
  abbrev pub set_maxage : ℤ → Configuration S
  set_maxage maxage h = record h {
    cookie = record h.cookie { http_cookie = record h.cookie.http_cookie { max_age = maxage } };
  }

  -- SetStore
  abbrev pub set_store : Option (Store S) → Configuration S
  set_store s h = record h { handler = record h.handler { store = s } }

  -- SetCache
  abbrev pub set_cache : Option (Cache S) → Configuration S
  set_cache c h = record h { handler = record h.handler { cache = c } }

  -- SetUUIDgenerator
  abbrev pub set_uuid_generator : (S → Result String × S) → Configuration S
  set_uuid_generator f h = record h { handler = record h.handler { uuidgen = f } }

  -- FixedUUID
  unfoldable pub fixed_uuid : ℤ → String → Configuration S
  unfolding set_id
  fixed_uuid now id s = record s {
    handler = record s.handler { uuidgen = λ b. (ok id, b) };
    cookie = set_id now id s.cookie;
  }

  -- ServerOnly
  abbrev pub server_only : Configuration S
  server_only h = record h { handler = record h.handler { server_only = true } }

  abbrev pub checked : Session S → Option (Session S)
  checked h = if h.handler.server_only && not (is_some h.handler.store) then none else some h

  abbrev pub with_cookie :
      ℕ
      → (S → Result String × S)
      → String
      → String
      → List (Option (Configuration S))
      → Option Cookie
      → Option (Session S)
  with_cookie key random name secret options none = none
  with_cookie key random name secret options (some c) = checked (
      configure options (record {
        handler = record {
          name = name;
          server_only = false;
          context_key = key;
          store = none;
          cache = none;
          uuidgen = random;
        };
        secret = secret;
        cookie = c;
        parent = none;
      }))

  -- New: `key` is the address of the new contextKey, `random` what makes an identifier of 32 random
  -- bytes.
  unfoldable pub new :
      ℤ
      → ℕ
      → (S → Result String × S)
      → String
      → String
      → List (Option (Configuration S))
      → Option (Session S)
  unfolding new_cookie configure
  new now key random name secret options =
      with_cookie key random name secret options (new_cookie now name secret (pos 0) [])

  abbrev pub with_parent : Session S → Option (Session S) → Option (Session S)
  with_parent h none = none
  with_parent h (some sh) = some (record sh { parent = some (h.handler, h.cookie) })

  -- h.Spawn(name, options...)
  unfoldable pub spawn :
      ℤ
      → ℕ
      → (S → Result String × S)
      → Session S
      → String
      → List (Option (Configuration S))
      → Option (Session S)
  unfolding new
  spawn now key random h name options = with_parent h (new now key random name h.secret options)

  -- h.Spawned(s): the assignment is to the parameter, which no one sees; the handler and the argument
  -- afterwards.
  unfoldable pub spawned : Session S → Session S → Session S × Session S
  spawned h s = (h, s)

  -- Parent
  unfoldable pub parent_of : Session S → Result (Handler S × Cookie)
  parent_of h = elim h.parent [ none ↦ err parent_invalid | some p ↦ ok p ]

  -- The state in which a method of the session starts; a session without a parent never reads the
  -- parent's cookie.
  abbrev pub parent_cookie : Session S → Cookie
  parent_cookie h = elim h.parent [ none ↦ h.cookie | some p ↦ p.1 ]

  abbrev pub parent_handler : Session S → Option (Handler S)
  parent_handler h = elim h.parent [ none ↦ none | some p ↦ some p.0 ]

  module _ (codec : Codec) (info : Request → String) (now : ℤ) where
    abbrev pub load_at : S → Session S → Exchange → Result (Unit {0}) × State S
    load_at b s x =
        load codec info now s.handler (parent_handler s) x.req
          (record { cookie = s.cookie; parent_cookie = parent_cookie s; backends = b; res = x.res })

    abbrev pub enforced :
        (S → Exchange → Outcome) → Exchange → Result (Unit {0}) × State S → Outcome
    enforced rest x (ok a, s) = rest s.backends (record x { res = s.res })
    enforced rest x (err e, s) =
        returned (http_error "Some session credentials are missing" 401 (record x { res = s.res }))
    enforced rest x (crash msg, s) = panicked msg (record x { res = s.res })

    -- The loop of Enforcer over the sessions
    unfoldable pub enforce : List (Session S) → S → Exchange → Outcome
    unfolding load http_error
    enforce [] b x = returned x
    enforce (s ∷ sessions) b x = enforced (enforce sessions) x (load_at b s x)

    -- Enforcer, on back ends in the state `b`
    unfoldable pub enforcer : List (Session S) → S → Linker
    unfolding enforce linkable_handler
    enforcer sessions b = linkable_handler (enforce sessions b)
