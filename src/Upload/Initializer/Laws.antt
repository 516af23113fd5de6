-- ===== src/Upload/Initializer/Laws.antt =====
-- Which requests for an upload Initializer lets through.
use xhttp.Prelude.{
  ℕ, ◌≡◌, refl, ◌∙◌, ap, String, Bool, true, false, Option, none, some, Bool-cases, inl, inr, not,
  if◌then◌else◌,
}
use xhttp.Prelude.Int.{ℤ}
use xhttp.Http.{Request}
use xhttp.Session.Action.{
  Error, State, Result, ok, err, crash, Action, continue, tried, stored, on_backends,
}
use xhttp.Session.Codec.{Codec}
use xhttp.Session.Cookie.{id as cookie_id}
use xhttp.Session.Handler.{id}
use xhttp.Session.Load.{loaded}
use xhttp.Upload.Initializer.{
  Bottleneck, Init, too_many, refuse, or_refuse, permission, with_winning, exchanging, ticketing,
  store_ticket, serve_initializer,
}

module _ {S : Type 0} where
  -- What comes after a call that went well.
  record Went {A : Type 0} (r : Result A × State S) (rest : A → Action S Bool) : Type 0 where
    value : A
    after : State S
    same : r ≡ (ok value, after)
    goes_on : (rest value after).0 ≡ ok true

  or_refuse-Went :
      {A : Type 0} (msg : Error → String) (code : ℕ) (r : Result A × State S)
      (rest : A → Action S Bool)
      → (continue (tried r) (λ t. or_refuse msg code t rest)).0 ≡ ok true
      → Went r rest
  or_refuse-Went msg code (ok a, s) rest e = record {
    value = a;
    after = s;
    same = refl;
    goes_on = e;
  }
  or_refuse-Went msg code (err x, s) rest e = absurd (cc)
  or_refuse-Went msg code (crash m, s) rest e = absurd (cc)

  stored-ok :
      {A : Type 0} (s : State S) (r : Result A × S) {a : A} {t : State S}
      → stored s r ≡ (ok a, t)
      → (r.0 ≡ ok a) × (r.1 ≡ t.backends)
  stored-ok s (r, b) e = (ap (λ p. p.0) e, ap (λ p. p.1.backends) e)

  -- The bottleneck service has given the user a ticket, and has exchanged it for a winning one.
  abbrev pub HasTicket : {T : Type 0} → Option (Bottleneck S T) → String → Type 0
  HasTicket none user = Unit
  HasTicket {T} (some b) user =
      (t t' : T) × (s : S) × ((b.new_ticket user s).0 ≡ ok t)
      × ((b.exchange_ticket user t (b.new_ticket user s).1).0 ≡ ok t')
      × (b.winning t' ≡ true)

  refused_unless :
      (b : Bool) (msg : String) (code : ℕ) (m : Action S Bool) (s : State S)
      → ((if not b then refuse msg code else m) s).0 ≡ ok true
      → b ≡ true
  refused_unless true msg code m s e = refl
  refused_unless false msg code m s e = absurd (cc)

module _ {S T : Type 0} (codec : Codec) (info : Request → String) (now : ℤ) (i : Init S T)
    (req : Request) where
  permission-HasTicket :
      (o : Option (Bottleneck S T)) (user : String) (rest : Action S Bool) (s : State S)
      → (permission codec info now i o req user rest s).0 ≡ ok true
      → HasTicket o user
  unfolding permission
  permission-HasTicket none user rest s e = tt
  permission-HasTicket (some b) user rest s e =
      let w =
        or_refuse-Went (λ x. "Unable to reach upload permission server") 500
          (on_backends (b.new_bottleneck user i.maxage i.max_concurrency) s)
          (λ _. ticketing codec info now i b req user rest) e in
      let w' =
        or_refuse-Went (λ x. "Unable to request for upload permission") 500
          (on_backends (b.new_ticket user) w.after) (exchanging codec info now i b req user rest)
          w.goes_on in
      let w'' =
        or_refuse-Went (λ x. "Unable to request for upload permission") 500
          (on_backends (b.exchange_ticket user w'.value) w'.after)
          (with_winning codec info now i b req rest) w'.goes_on in
      let (given, left) = stored-ok w.after (b.new_ticket user w.after.backends) w'.same in
      let (swapped, _) =
        stored-ok w'.after (b.exchange_ticket user w'.value w'.after.backends) w''.same in
      (
        w'.value,
        w''.value,
        w.after.backends,
        given,
        ap (λ x. (b.exchange_ticket user w'.value x).0) left ∙ swapped,
        refused_unless (b.winning w''.value) too_many 429
            (store_ticket codec info now i b req w''.value rest) w''.after w''.goes_on,
      )

  -- Initializer calls the next handler only for a request whose user session is loaded, and, where
  -- there is a bottleneck, only if the service has given a ticket for the id of this session and has
  -- exchanged it for a winning one.
  pub serve_initializer-HasTicket :
      (s : State S)
      → (serve_initializer codec info now i req s).0 ≡ ok true
      → (loaded i.handlers.uploader req.ctx ≡ true)
        × HasTicket i.bottleneck (cookie_id s.parent_cookie).0
  unfolding serve_initializer id
  serve_initializer-HasTicket s e = elim (Bool-cases (loaded i.handlers.uploader req.ctx)) [
    | inl known ↦ (known, permission-HasTicket i.bottleneck _ _ s (rw known at e))
    | inr unknown ↦ absurd (let e' : ok false ≡ ok true = rw unknown at e in cc)
  ]
