-- ===== src/Rbac.antt =====
-- handlers/rbac/rbac.go: NewRole, the two equality tests of roles, RoleList.ServeHTTP and
-- Enforcer.ServeHTTP. A role list is the list of its roles in the order of the `range`.
use xhttp.Prelude.{
  ℕ, ◌≡◌, refl, String, Bool, true, false, Option, none, some, List, [], ◌∷◌, not, ◌&&◌,
  if◌then◌else◌, nat_eq, length, ◌==◌, Memᴰ,
}
use xhttp.Prelude.Int.{ℤ, pos, ◌-ℤ◌, is_zero}
use xhttp.Context.{CtxValue, Role, role}
use xhttp.Http.{
  Ctx, with_value, Exchange, Request, Response, Handler, Outcome, returned, panicked, serve_next,
  with_context, http_error,
}
mod Laws
mod Equality
mod Examples

mem : String → List String → Bool
mem s [] = false
mem s (k ∷ ks) = if k == s then true else mem s ks

-- The keys of the map that NewRole builds: a text that is listed twice is one key.
abbrev add_key : String → List String → List String
add_key s ks = if mem s ks then ks else s ∷ ks

keys_of : List String → List String → List String
keys_of [] ks = ks
keys_of (p ∷ ps) ks = keys_of ps (add_key p ks)

-- NewRole at the time `now`, with the identity of the new context key. The zero time is 0.
unfoldable pub new_role : ℤ → ℕ → String → String → ℤ → List String → Role
unfolding mem keys_of
new_role now key uid name duration perms = record {
  uid = uid;
  name = name;
  permissions = keys_of perms [];
  duration = duration;
  created_at = now;
  assigned_on = pos 0;
  context_key = key;
}

contains_all : List String → List String → Bool
unfolding mem
contains_all ks [] = true
contains_all ks (k ∷ more) =
    let rest = contains_all ks more in if not (mem k ks) then false else rest

abbrev same_time : ℤ → ℤ → Bool
unfolding ◌-ℤ◌
same_time a b = is_zero (a -ℤ b)

-- SameRoleDefinitions
unfoldable pub same_role_definitions : Role → Role → Bool
unfolding contains_all same_time
same_role_definitions r t =
    if r.uid == t.uid
      && r.name == t.name
      && same_time r.duration t.duration
      && same_time r.created_at t.created_at
      && nat_eq (length r.permissions) (length t.permissions)
    then contains_all r.permissions t.permissions
    else false

-- SameAssignedRoles
unfoldable pub same_assigned_roles : Role → Role → Bool
unfolding contains_all same_time
same_assigned_roles r t =
    if r.uid == t.uid
      && r.name == t.name
      && same_time r.duration t.duration
      && same_time r.created_at t.created_at
      && same_time r.assigned_on t.assigned_on
      && nat_eq (length r.permissions) (length t.permissions)
    then contains_all r.permissions t.permissions
    else false

-- AssignRole and AuthorizationChecker: they may write to the response, and return an error or nil.
abbrev pub Check : Type 0
Check = Role → Exchange → Option String × Exchange

abbrev pub after : String → ℕ → Option String × Exchange → Handler → Outcome
after msg code (none, x) k = k x
after msg code (some err, x) k = returned (http_error msg code x)

-- The loop of RoleList.ServeHTTP, and the call of the next handler. A call of a nil function panics.
unfoldable pub assign_from : ℤ → Option Check → List Role → Ctx → Option Handler → Handler
assign_from now assign [] ctx next x = with_context ctx (serve_next next) x
assign_from now none (r ∷ roles) ctx next x =
    panicked "invalid memory address or nil pointer dereference" x
assign_from now (some assign) (r ∷ roles) ctx next x =
    let assigned = record r { assigned_on = now } in
    after "unable to grant authorization" 500 (assign assigned x)
      (assign_from now (some assign) roles (with_value r.context_key (role assigned) ctx) next)

abbrev without_assign : Option Check → Exchange → Exchange
without_assign none x = http_error "" 500 x
without_assign (some assign) x = x

-- RoleList.ServeHTTP at the time `now`
unfoldable pub rolelist_serve : ℤ → Option Check → List Role → Option Handler → Handler
unfolding assign_from
rolelist_serve now assign roles next x =
    assign_from now assign roles x.req.ctx next (without_assign assign x)

-- The loop of Enforcer.ServeHTTP, and the call of the next handler.
unfoldable pub enforce_from : Check → List Role → Ctx → Option Handler → Handler
enforce_from check [] ctx next x = with_context ctx (serve_next next) x
enforce_from check (r ∷ roles) ctx next x =
    after "Access Denied, Role or permission missing." 401 (check r x)
      (enforce_from check roles (with_value r.context_key (role r) ctx) next)

-- Enforcer.ServeHTTP
unfoldable pub enforcer_serve : Check → List Role → Option Handler → Handler
unfolding enforce_from
enforcer_serve check roles next x = enforce_from check roles x.req.ctx next x
