-- ===== src/Rbac/Laws.antt =====
-- Who passes the enforcer of roles.
use xhttp.Prelude.{◌≡◌, refl, ◌∙◌, sym, ap, String, Option, none, some, List, [], ◌∷◌, Memᴰ, All}
use xhttp.Context.{Role, role}
use xhttp.Http.{
  Ctx, with_value, Exchange, Handler, Outcome, returned, serve_next, with_context, http_error,
}
use xhttp.Rbac.{Check, after, enforce_from, enforcer_serve}

-- The checker refuses the role, whatever the response is by then.
abbrev pub Refuses : Check → Role → Type 0
Refuses check r = (x : Exchange) → (err : String) × (y : Exchange) × (check r x ≡ (some err, y))

-- The checker accepts the role and leaves the exchange as it is.
abbrev pub Accepts : Check → Role → Type 0
Accepts check r = (x : Exchange) → check r x ≡ (none, x)

-- The context that the roles are put in, one after the other.
abbrev pub with_roles : List Role → Ctx → Ctx
with_roles [] ctx = ctx
with_roles (r ∷ roles) ctx = with_roles roles (with_value r.context_key (role r) ctx)

-- The same refusal for every next handler.
IsDenied : (Option Handler → Outcome) → Type 0
IsDenied f =
    (y : Exchange) × ((next : Option Handler)
      → f next ≡ returned (http_error "Access Denied, Role or permission missing." 401 y))

after-IsDenied :
    (found : Option String × Exchange) (k : Option Handler → Handler)
    → ((x : Exchange) → IsDenied (λ next. k next x))
    → IsDenied (λ next. after "Access Denied, Role or permission missing." 401 found (k next))
unfolding IsDenied
after-IsDenied (none, x) k h = h x
after-IsDenied (some err, x) k h = (x, λ next. refl)

enforce_from-IsDenied :
    (check : Check) (roles : List Role) (ctx : Ctx) (r : Role)
    → Memᴰ r roles
    → Refuses check r
    → (x : Exchange) → IsDenied (λ next. enforce_from check roles ctx next x)
unfolding enforce_from IsDenied
enforce_from-IsDenied check [] ctx r m refuses x = elim m [ ]
enforce_from-IsDenied check (q ∷ roles) ctx r (Memᴰ.head e) refuses x =
    let (err, y, eq) = refuses x in
    (
      y,
      λ next.
          ap
            (λ found.
              after "Access Denied, Role or permission missing." 401 found
                (enforce_from check roles (with_value q.context_key (role q) ctx) next))
            (ap (λ s. check s x) (sym e) ∙ eq),
    )
enforce_from-IsDenied check (q ∷ roles) ctx r (Memᴰ.tail m) refuses x =
    after-IsDenied (check q x) (enforce_from check roles (with_value q.context_key (role q) ctx))
      (enforce_from-IsDenied check roles (with_value q.context_key (role q) ctx) r m refuses)

-- As soon as the checker refuses one of the listed roles, whichever and wherever it stands, a request
-- is answered with 401, and the answer is the same for every next handler: none of them runs.
pub enforcer_serve-refused :
    (check : Check) (roles : List Role) (r : Role) (x : Exchange)
    → Memᴰ r roles
    → Refuses check r
    → (y : Exchange) × ((next : Option Handler)
        → enforcer_serve check roles next x
          ≡ returned (http_error "Access Denied, Role or permission missing." 401 y))
unfolding enforcer_serve IsDenied
enforcer_serve-refused check roles r x m refuses =
    enforce_from-IsDenied check roles x.req.ctx r m refuses x

accepted-from :
    (check : Check) (roles : List Role) (ctx : Ctx) (next : Option Handler) (x : Exchange)
    → All (Accepts check) roles
    → enforce_from check roles ctx next x ≡ with_context (with_roles roles ctx) (serve_next next) x
unfolding enforce_from
accepted-from check [] ctx next x all = refl
accepted-from check (r ∷ roles) ctx next x (h, all) =
    ap
      (λ found.
        after "Access Denied, Role or permission missing." 401 found
          (enforce_from check roles (with_value r.context_key (role r) ctx) next))
      (h x)
    ∙ accepted-from check roles (with_value r.context_key (role r) ctx) next x all

-- When the checker accepts every listed role and writes nothing, the next handler gets the request
-- with all of them in its context.
pub enforcer_serve-accepted :
    (check : Check) (roles : List Role) (next : Option Handler) (x : Exchange)
    → All (Accepts check) roles
    → enforcer_serve check roles next x
      ≡ with_context (with_roles roles x.req.ctx) (serve_next next) x
unfolding enforcer_serve
enforcer_serve-accepted check roles next x all = accepted-from check roles x.req.ctx next x all
