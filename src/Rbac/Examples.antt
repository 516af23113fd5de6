-- ===== src/Rbac/Examples.antt =====
-- A visitor with one of two roles.
use mathlib.Core.List.{Memᴰ}
use xhttp.Prelude.{◌≡◌, ◌↔◌, refl, true, String, Option, none, some, [], ◌∷◌, if◌then◌else◌, ◌==◌}
use xhttp.Prelude.Int.{pos}
use xhttp.Context.{Role}
use xhttp.Http.{Handler, Exchange, returned, http_error}
use xhttp.Rbac.{Check, enforcer_serve, new_role, same_role_definitions}
use xhttp.Rbac.Equality.{SameDefinition, same_role_definitions-true_iff, new_role-Nodup}
use xhttp.Rbac.Laws.{enforcer_serve-refused}

abbrev asks : Exchange
asks = record {
  req = record { method = "GET"; scheme = "http"; path = "/"; header = []; cookies = []; ctx = [] };
  res = record { header = []; sent = none; body = [] };
}

abbrev editor : Role
editor = new_role (pos 5) 1 "r1" "editor" (pos 0) ("write" ∷ [])

abbrev admin : Role
admin = new_role (pos 5) 2 "r2" "admin" (pos 0) ("drop" ∷ [])

-- The checker of a visitor whose role is the one with this id.
abbrev only : String → Check
only uid r x = if r.uid == uid then (none, x) else (some "missing", x)

enforcer_serve-refused_example :
    (y : Exchange) × ((next : Option Handler)
      → enforcer_serve (only "r1") (editor ∷ admin ∷ []) next asks
        ≡ returned (http_error "Access Denied, Role or permission missing." 401 y))
unfolding new_role
enforcer_serve-refused_example =
    enforcer_serve-refused (only "r1") (editor ∷ admin ∷ []) admin asks (Memᴰ.tail (Memᴰ.head refl))
      (λ x. ("missing", x, refl))

-- The same role with its permissions listed the other way round, and one of them twice
abbrev author : Role
author = new_role (pos 5) 1 "r1" "author" (pos 0) ("read" ∷ "write" ∷ [])

abbrev author_again : Role
author_again = new_role (pos 5) 2 "r1" "author" (pos 0) ("write" ∷ "read" ∷ "write" ∷ [])

same_role_definitions-true_iff_example :
    (same_role_definitions author author_again ≡ true) ↔ SameDefinition author author_again
same_role_definitions-true_iff_example =
    same_role_definitions-true_iff author author_again
      (new_role-Nodup (pos 5) 2 "r1" "author" (pos 0) ("write" ∷ "read" ∷ "write" ∷ []))

same_test : same_role_definitions author author_again ≡ true
unfolding same_role_definitions new_role
same_test = refl
