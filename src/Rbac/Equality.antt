-- ===== src/Rbac/Equality.antt =====
-- What the equality test of roles compares.
use mathlib.Core.List as Lists
use mathlib.Core.List.{
  Mem, Nodup, Nodup-cons, Nodup-nil, Subset, Perm, not-mem-nil, eq-or-mem_of_mem-cons,
  mem-cons_self, mem-cons,
}
use mathlib.Core.List.Perm
use mathlib.Core.List.Nodup
use mathlib.Core.List.Subperm
use mathlib.Core.Logic.Or
use native.Mathlib.Bridge.{from_ℕ, from_le⁻¹}
use xhttp.Prelude.{
  ℕ, ◌≤◌, ◌≡◌, refl, sym, ◌∙◌, ap, ◌↔◌, String, Bool, true, false, List, [], ◌∷◌, length, ◌==◌,
  eq_iff, Bool-cases, inl, inr, arith, if◌then◌else◌, nat_eq, nat_eq_iff, ◌&&◌,
}
use xhttp.Prelude.Int.{ℤ, ◌-ℤ◌}
use xhttp.Context.{Role}
use xhttp.Rbac.{mem, add_key, keys_of, new_role, contains_all, same_time, same_role_definitions}

true_prop : {b : Bool} → IsProp (b ≡ true)
true_prop = hlevel

length-from_ℕ : (xs : List String) → length xs ≡ from_ℕ (Lists.length xs)
length-from_ℕ [] = refl
length-from_ℕ (x ∷ xs) = omega (arith, length-from_ℕ xs)

Mem_of_mem : (s : String) (ks : List String) → mem s ks ≡ true → Mem s ks
unfolding mem
Mem_of_mem s [] e = absurd (cc)
Mem_of_mem s (k ∷ ks) e = elim (Bool-cases (k == s)) [
  | inl same ↦ rw ((eq_iff k s).0 same) mem-cons_self
  | inr other ↦ mem-cons.1 (Or.inr (Mem_of_mem s ks (rw other at e)))
]

mem_of_Mem : (s : String) (ks : List String) → Mem s ks → mem s ks ≡ true
unfolding mem
mem_of_Mem s [] m = absurd (not-mem-nil m)
mem_of_Mem s (k ∷ ks) m = elim (Bool-cases (k == s)) [
  | inl same ↦ rw same refl
  | inr other ↦ rw other (
      Or.elim true_prop (eq-or-mem_of_mem-cons m)
        (λ e. absurd (let t : (k == s) ≡ true = (eq_iff k s).1 (sym e) in cc))
        (λ later. mem_of_Mem s ks later))
]

Subset_of_contains_all : (ks ts : List String) → contains_all ks ts ≡ true → Subset ts ks
unfolding contains_all
Subset_of_contains_all ks [] e x m = absurd (not-mem-nil m)
Subset_of_contains_all ks (t ∷ ts) e x m = elim (Bool-cases (mem t ks)) [
  | inl there ↦
      Or.elim Lists.Mem-prop (eq-or-mem_of_mem-cons m) (λ same. rw same (Mem_of_mem t ks there))
        (λ later. Subset_of_contains_all ks ts (rw there at e) x later)
  | inr gone ↦ absurd (let e' : false ≡ true = rw gone at e in cc)
]

contains_all_of_Subset : (ks ts : List String) → Subset ts ks → contains_all ks ts ≡ true
unfolding contains_all
contains_all_of_Subset ks [] h = refl
contains_all_of_Subset ks (t ∷ ts) h =
    rw (mem_of_Mem t ks (h t mem-cons_self))
      (contains_all_of_Subset ks ts (λ x m. h x (mem-cons.1 (Or.inr m))))

same_time_iff : (a b : ℤ) → (same_time a b ≡ true) ↔ (a ≡ b)
unfolding ◌-ℤ◌
same_time_iff a b = ground arith

-- The keys of two maps are the same if they are equally many and those of the second are among those
-- of the first.
Perm_of_contains_all :
    (ks ts : List String)
    → Nodup ts
    → length ks ≡ length ts
    → contains_all ks ts ≡ true
    → Perm ks ts
Perm_of_contains_all ks ts distinct same e =
    let fewer : from_ℕ (Lists.length ks) ≤ from_ℕ (Lists.length ts) =
      omega (arith, length-from_ℕ ks, length-from_ℕ ts) in
    Perm.symm (
      Subperm.perm_of_length_le (Nodup.subperm distinct (Subset_of_contains_all ks ts e))
        (from_le⁻¹ _ _ fewer))

contains_all_of_Perm : (ks ts : List String) → Perm ks ts → contains_all ks ts ≡ true
contains_all_of_Perm ks ts p = contains_all_of_Subset ks ts (λ x m. (Perm.mem_iff p).1 m)

length_of_Perm : (ks ts : List String) → Perm ks ts → length ks ≡ length ts
length_of_Perm ks ts p = length-from_ℕ ks ∙ ap from_ℕ (Perm.length-eq p) ∙ sym (length-from_ℕ ts)

all_true :
    (a b c d e f : Bool)
    → (if a && b && c && d && e then f else false) ≡ true
    → (a ≡ true) × (b ≡ true) × (c ≡ true) × (d ≡ true) × (e ≡ true) × (f ≡ true)
all_true true true true true true f h = (refl, refl, refl, refl, refl, h)
all_true false b c d e f h = absurd (cc)
all_true true false c d e f h = absurd (cc)
all_true true true false d e f h = absurd (cc)
all_true true true true false e f h = absurd (cc)
all_true true true true true false f h = absurd (cc)

-- The same in all that the definition of a role has, whatever its assignment and its context key.
pub record SameDefinition (r t : Role) : Type 0 where
  pub uid : r.uid ≡ t.uid
  pub name : r.name ≡ t.name
  pub duration : r.duration ≡ t.duration
  pub created_at : r.created_at ≡ t.created_at
  pub permissions : Perm r.permissions t.permissions

-- Where the permissions of the second role are the keys of a map, which has no key twice, two roles
-- pass SameRoleDefinitions exactly when they have the same identifier, name, duration and creation
-- time, and the same permissions in any order: that only the permissions of the second are looked up
-- in the first makes no difference.
pub same_role_definitions-true_iff :
    (r t : Role) → Nodup t.permissions → (same_role_definitions r t ≡ true) ↔ SameDefinition r t
unfolding same_role_definitions
same_role_definitions-true_iff r t distinct = (
  λ h.
      let (a, b, c, d, e, f) =
        all_true (r.uid == t.uid) (r.name == t.name) (same_time r.duration t.duration)
          (same_time r.created_at t.created_at)
          (nat_eq (length r.permissions) (length t.permissions))
          (contains_all r.permissions t.permissions) h in
      record {
        uid = (eq_iff r.uid t.uid).0 a;
        name = (eq_iff r.name t.name).0 b;
        duration = (same_time_iff r.duration t.duration).0 c;
        created_at = (same_time_iff r.created_at t.created_at).0 d;
        permissions =
            Perm_of_contains_all r.permissions t.permissions distinct
              ((nat_eq_iff (length r.permissions) (length t.permissions)).0 e) f;
      },
  λ s.
      rw
        (
          (eq_iff r.uid t.uid).1 s.uid,
          (eq_iff r.name t.name).1 s.name,
          (same_time_iff r.duration t.duration).1 s.duration,
          (same_time_iff r.created_at t.created_at).1 s.created_at,
          (nat_eq_iff (length r.permissions) (length t.permissions)).1
              (length_of_Perm r.permissions t.permissions s.permissions),
          contains_all_of_Perm r.permissions t.permissions s.permissions,
        )
        refl,
)

add_key-Nodup : (s : String) (ks : List String) → Nodup ks → Nodup (add_key s ks)
add_key-Nodup s ks n = elim (Bool-cases (mem s ks)) [
  | inl there ↦ rw there n
  | inr gone ↦ rw gone (Nodup-cons.1 ((λ m. let t : mem s ks ≡ true = mem_of_Mem s ks m in cc), n))
]

keys_of-Nodup : (ps ks : List String) → Nodup ks → Nodup (keys_of ps ks)
unfolding keys_of
keys_of-Nodup [] ks n = n
keys_of-Nodup (p ∷ ps) ks n = keys_of-Nodup ps (add_key p ks) (add_key-Nodup p ks n)

-- The permissions of a new role have no key twice.
pub new_role-Nodup :
    (now : ℤ) (key : ℕ) (uid name : String) (duration : ℤ) (perms : List String)
    → Nodup (new_role now key uid name duration perms).permissions
unfolding new_role
new_role-Nodup now key uid name duration perms = keys_of-Nodup perms [] Nodup-nil
