-- ===== src/Csrf/Laws.antt =====
-- Which requests pass the protection against forged ones.
use xhttp.Prelude.{
  ℕ, ◌≡◌, ◌≢◌, refl, ◌⊎◌, inl, inr, String, Bool, true, false, Option, none, some, List, [], ◌∷◌,
  if◌then◌else◌, ◌==◌, Bool-cases, eq_iff,
}
use xhttp.Prelude.Dict.{lookup}
use xhttp.Prelude.Int.{ℤ}
use xhttp.Context.{HttpCookie, CtxValue, cookie, failure, role}
use xhttp.Http.{Request, ctx_value}
use xhttp.Session.Action.{
  State, Result, ok, err, crash, Tried, done, failed, Action, continue, tried,
}
use xhttp.Session.Codec.{Codec}
use xhttp.Session.Handler.{Handler}
use xhttp.Session.Load.{load}
use xhttp.Csrf.{
  Guard, is_safe, generate_token, after_token, refuse_with_token, check_cookie, check_header,
  serve_unsafe, serve_safe, serve_http,
}

-- What a sequence that succeeds has passed through.
pub continue-ok :
    {S A B : Type 0} (m : Result A × State S) (f : A → Action S B) {b : B}
    → (continue m f).0 ≡ ok b
    → (a : A) × (s : State S) × ((f a s).0 ≡ ok b)
continue-ok (ok a, s) f e = (a, s, e)
continue-ok (err x, s) f e = absurd (cc)
continue-ok (crash x, s) f e = absurd (cc)

module _ {S : Type 0} (codec : Codec) (info : Request → String) (now : ℤ)
    (random : S → Result String × S) where
  after_token-ne :
      (msg : String) (code : ℕ) (r : Tried (Unit {0})) (s : State S)
      → (after_token codec info now random msg code r s).0 ≢ ok true
  after_token-ne msg code (failed x) s e = cc
  after_token-ne msg code (done x) s e = cc

  refuse_with_token-ne :
      (h : Handler S) (msg : String) (code : ℕ) (s : State S)
      → (refuse_with_token codec info now random h msg code s).0 ≢ ok true
  unfolding refuse_with_token
  refuse_with_token-ne h msg code s e =
      let (r, t, e') =
        continue-ok (tried (generate_token codec info now random h s))
          (after_token codec info now random msg code) e in
      after_token-ne msg code r t e'

  -- The header carries the value of the session cookie in the context of the request.
  abbrev pub HasToken : Guard S → Request → Type 0
  HasToken g req =
      (tok : String) × (toks : List String) × (c : HttpCookie) × (lookup g.header req.header
        ≡ some (tok ∷ toks))
      × (ctx_value g.session.context_key req.ctx ≡ some (cookie c))
      × (tok ≡ c.value)

  check_cookie-true :
      (h : Handler S) (tok : String) (o : Option CtxValue) (s : State S)
      → (check_cookie codec info now random h tok o s).0 ≡ ok true
      → (c : HttpCookie) × (o ≡ some (cookie c)) × (tok ≡ c.value)
  unfolding check_cookie
  check_cookie-true h tok none s e = absurd (refuse_with_token-ne h _ _ s e)
  check_cookie-true h tok (some (failure x)) s e = absurd (refuse_with_token-ne h _ _ s e)
  check_cookie-true h tok (some (role x)) s e = absurd (refuse_with_token-ne h _ _ s e)
  check_cookie-true h tok (some (cookie c)) s e = elim (Bool-cases (tok == c.value)) [
    | inl same ↦ (c, refl, (eq_iff tok c.value).0 same)
    | inr other ↦ absurd (refuse_with_token-ne h "anti csrf header not valid" 400 s (rw other at e))
  ]

  serve_unsafe-true :
      (g : Guard S) (req : Request) (o : Option (List String)) (s : State S)
      → lookup g.header req.header ≡ o
      → (check_header codec info now random g.session req o s).0 ≡ ok true
      → HasToken g req
  unfolding check_header
  serve_unsafe-true g req none s f e = absurd (cc)
  serve_unsafe-true g req (some []) s f e = absurd (cc)
  serve_unsafe-true g req (some (tok ∷ toks)) s f e =
      let (c, found, same) = check_cookie-true g.session tok _ s e in (tok, toks, c, f, found, same)

  after_load :
      (g : Guard S) (req : Request) (b : Bool) (r : Tried (Unit {0})) (s : State S)
      → ((if b
            then serve_safe codec info now random g.session r
            else serve_unsafe codec info now random g req r)
          s).0
        ≡ ok true
      → (b ≡ true) ⊎ HasToken g req
  unfolding serve_unsafe
  after_load g req true r s e = inl refl
  after_load g req false (failed x) s e = absurd (refuse_with_token-ne g.session _ _ s e)
  after_load g req false (done x) s e = inr (serve_unsafe-true g req _ s refl e)

  -- The next handler is called only for a GET, HEAD or OPTIONS request, or for a request whose header
  -- carries the value of the session cookie that is in its context.
  pub serve_http-HasToken :
      (g : Guard S) (parent : Option (Handler S)) (req : Request) (s : State S)
      → (serve_http codec info now random g parent req s).0 ≡ ok true
      → (is_safe req.method ≡ true) ⊎ HasToken g req
  unfolding serve_http
  serve_http-HasToken g parent req s e =
      let (r, t, e') = continue-ok (tried (load codec info now g.session parent req _)) _ e in
      after_load g req (is_safe req.method) r t e'
