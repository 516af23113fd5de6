-- ===== src/Context.antt =====
-- The values that the handlers keep in a request's context, and the fields of net/http's `Cookie`
-- that the library sets or reads.
use xhttp.Prelude.{ℕ, String, Bool, List}
use xhttp.Prelude.Int.{ℤ}

pub record HttpCookie : Type 0 where
  pub name : String
  pub value : String
  pub path : String
  pub max_age : ℤ
  pub http_only : Bool
  pub secure : Bool

-- handlers/rbac/rbac.go: Role. The keys of the permission set are listed; an instant is in
-- nanoseconds; the context key is a pointer, here its identity.
pub record Role : Type 0 where
  pub uid : String
  pub name : String
  pub permissions : List String
  pub duration : ℤ
  pub created_at : ℤ
  pub assigned_on : ℤ
  pub context_key : ℕ

-- What ctx.Value can return: a session cookie, an error that a session load left, or a role.
pub data CtxValue : Type 0 where
  cookie : HttpCookie → CtxValue
  failure : String → CtxValue
  role : Role → CtxValue
