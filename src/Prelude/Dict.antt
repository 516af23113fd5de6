-- ===== src/Prelude/Dict.antt =====
-- Go's `map` with text keys, as an association list. The order of the entries is the order in which
-- a `range` loop happens to visit them, so a statement over every list covers every order.
use mathlib.Core.Path.{◌≡◌, refl, sym, ap}
use mathlib.Core.Option.{Option, none, some}
use mathlib.Core.List.{List, [], ◌∷◌, Memᴰ}
use native.Mathlib.Omega.{arith}
use text.Mathlib.Text.{◌==◌}
use text.Mathlib.TextEquality.{eq_iff}
use text.Mathlib.TextPositions.{eq_refl}
use Prim.Native.String.{String}
use mathlib.Core.Bool.{false}
use mathlib.Core.Logic.{inl, inr}
use xhttp.Prelude.Tests.{if◌then◌else◌, is_some, Bool-cases}

abbrev pub Dict {ℓ} : Type ℓ → Type ℓ
Dict V = List (String × V)

module _ {ℓ} {V : Type ℓ} where
  -- v, ok := m[k]
  unfoldable pub lookup : String → Dict V → Option V
  lookup k [] = none
  lookup k ((j, v) ∷ m) = if j == k then some v else lookup k m

  -- delete(m, k)
  unfoldable pub remove : String → Dict V → Dict V
  remove k [] = []
  remove k ((j, w) ∷ m) = let rest = remove k m in if j == k then rest else (j, w) ∷ rest

  -- m[k] with the zero value of a missing key
  abbrev pub get_or : String → V → Dict V → V
  get_or k d m = elim (lookup k m) [ none ↦ d | some v ↦ v ]

  -- m[key] = new
  unfoldable pub insert : String → V → Dict V → Dict V
  insert key new [] = (key, new) ∷ []
  insert key new ((other, old) ∷ m) =
      let rest = insert key new m in if other == key then (key, new) ∷ m else (other, old) ∷ rest

  pub lookup-insert :
      (k j : String) (v : V) (m : Dict V)
      → lookup j (insert k v m) ≡ (if k == j then some v else lookup j m)
  unfolding lookup insert
  lookup-insert k j v [] = refl
  lookup-insert k j v ((other, old) ∷ m) =
      let later = lookup-insert k j v m in
      ground (arith, eq_iff other k, eq_iff other j, eq_iff k j)

  pub lookup-remove :
      (k j : String) (m : Dict V) → lookup j (remove k m) ≡ (if k == j then none else lookup j m)
  unfolding lookup remove
  lookup-remove k j [] = ground arith
  lookup-remove k j ((i, w) ∷ m) =
      ground (arith, eq_iff i k, eq_iff i j, eq_iff k j, lookup-remove k j m)

  -- No key stands twice, as in every Go map.
  abbrev pub Distinct : Dict V → Type 0
  Distinct [] = Unit
  Distinct ((k, v) ∷ m) = (is_some (lookup k m) ≡ false) × Distinct m

  pub lookup-none : (k : String) (m : Dict V) → is_some (lookup k m) ≡ false → lookup k m ≡ none
  lookup-none k m h = ground arith

  pub lookup_of_mem :
      (k : String) (v : V) (m : Dict V) → Distinct m → Memᴰ (k, v) m → lookup k m ≡ some v
  unfolding lookup
  lookup_of_mem k v [] d h = elim h [ ]
  lookup_of_mem k v ((j, w) ∷ m) (n, d) (Memᴰ.head e) =
      let same : k ≡ j = ap (λ t. t.0) e in
      let value : v ≡ w = ap (λ t. t.1) e in rw (same, eq_refl) (ap some (sym value))
  lookup_of_mem k v ((j, w) ∷ m) (n, d) (Memᴰ.tail h) =
      let found = lookup_of_mem k v m d h in ground (arith, eq_iff j k)

  pub mem_of_lookup : (k : String) (v : V) (m : Dict V) → lookup k m ≡ some v → Memᴰ (k, v) m
  unfolding lookup
  mem_of_lookup k v [] e = absurd (cc)
  mem_of_lookup k v ((j, w) ∷ m) e = elim (Bool-cases (j == k)) [
    | inl same ↦
        let key : k ≡ j = sym ((eq_iff j k).0 same) in
        let value : v ≡ w = ground arith in Memᴰ.head (λ i. (key i, value i))
    | inr other ↦ Memᴰ.tail (mem_of_lookup k v m (ground arith))
  ]

  pub insert-Distinct : (k : String) (v : V) (m : Dict V) → Distinct m → Distinct (insert k v m)
  unfolding insert
  insert-Distinct k v [] d = (unfold lookup in (refl, tt))
  insert-Distinct k v ((j, w) ∷ m) (n, d) = elim (Bool-cases (j == k)) [
    | inl same ↦ rw same (rw (sym ((eq_iff j k).0 same)) (n, d))
    | inr other ↦
        rw other
          (ground (arith, lookup-insert k j v m, eq_iff k j, eq_iff j k), insert-Distinct k v m d)
  ]

pub ruleset dict_laws = (lookup-insert, lookup-remove)
