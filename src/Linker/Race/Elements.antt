-- ===== src/Linker/Race/Elements.antt =====
-- The elements of the slice that handlerchain.Link of multiplexer.go writes, one by one.
use mathlib.Core.Option.{some_inj}
use xhttp.Prelude.{
  ℕ, zero, suc, ◌≤◌, ◌≢◌, ◌≡◌, refl, sym, ◌∙◌, ap, ◌⊎◌, inl, inr, some, List, [], ◌∷◌, get_elem?,
  set, length, arith,
}
use xhttp.Http.{Handler}
use xhttp.Linker.{Linker, link, serve}
use xhttp.Linker.Chain.{composed, fully_linked}
use xhttp.Linker.Laws.{runs}

module _ {ℓ} {A : Type ℓ} where
  pub get_elem?-length : (xs : List A) (i : ℕ) {v : A} → get_elem? xs i ≡ some v → suc i ≤ length xs
  get_elem?-length [] i e = absurd (cc)
  get_elem?-length (x ∷ xs) zero e = omega arith
  get_elem?-length (x ∷ xs) (suc i) e = omega (arith, get_elem?-length xs i e)

  pub get_elem?-some :
      (xs : List A) (i : ℕ) → suc i ≤ length xs → (v : A) × (get_elem? xs i ≡ some v)
  get_elem?-some [] i n = absurd (omega arith)
  get_elem?-some (x ∷ xs) zero n = (x, refl)
  get_elem?-some (x ∷ xs) (suc i) n = get_elem?-some xs i (omega arith)

  -- After a write, an element is the one that was written or was there before.
  pub get_elem?-set :
      (xs : List A) (i j : ℕ) (v : A) {w : A}
      → get_elem? (set xs i v) j ≡ some w
      → ((i ≡ j) × (v ≡ w)) ⊎ ((i ≢ j) × (get_elem? xs j ≡ some w))
  get_elem?-set [] i j v e = absurd (cc)
  get_elem?-set (x ∷ xs) zero zero v e = inl (refl, some_inj.0 e)
  get_elem?-set (x ∷ xs) zero (suc j) v e = inr ((λ n. omega (arith, n)), e)
  get_elem?-set (x ∷ xs) (suc i) zero v e = inr ((λ n. omega (arith, n)), e)
  get_elem?-set (x ∷ xs) (suc i) (suc j) v e = elim (get_elem?-set xs i j v e) [
    | inl (n, same) ↦ inl (ap suc n, same)
    | inr (n, old) ↦ inr ((λ m. n (omega (arith, m))), old)
  ]

-- An element with the same ServeHTTP does not change what a slice runs.
pub runs-set_like :
    (c d : List Linker) (i : ℕ) {v : Linker}
    → runs d ≡ runs c
    → get_elem? d i ≡ some v
    → runs (set c i v) ≡ runs c
runs-set_like [] d i same e = refl
runs-set_like (x ∷ c) [] i same e = absurd (cc)
runs-set_like (x ∷ c) (y ∷ d) zero same e = cc
runs-set_like (x ∷ c) (y ∷ d) (suc i) same e = ap (λ t. x.run ∷ t) (runs-set_like c d i (cc) e)

-- The last element of the linked slice
pub fully_linked-last :
    (c : List Linker) (i : ℕ) (g : Handler) {l : Linker}
    → get_elem? c i ≡ some l
    → suc i ≡ length c
    → get_elem? (fully_linked c g) i ≡ some (link l g)
unfolding fully_linked composed
fully_linked-last [] i g e n = absurd (cc)
fully_linked-last (x ∷ []) zero g e n = ap (λ t. some (link t g)) (some_inj.0 e)
fully_linked-last (x ∷ []) (suc i) g e n = absurd (cc)
fully_linked-last (x ∷ y ∷ c) zero g e n = absurd (omega (arith, n))
fully_linked-last (x ∷ y ∷ c) (suc i) g e n = fully_linked-last (y ∷ c) i g e (omega (arith, n))

-- Any other element is linked to the one behind it.
pub fully_linked-pair :
    (c : List Linker) (i : ℕ) (g : Handler) {l m : Linker}
    → get_elem? c i ≡ some l
    → get_elem? (fully_linked c g) (suc i) ≡ some m
    → get_elem? (fully_linked c g) i ≡ some (link l (serve m))
unfolding fully_linked composed
fully_linked-pair [] i g e f = absurd (cc)
fully_linked-pair (x ∷ []) i g e f = absurd (cc)
fully_linked-pair (x ∷ y ∷ c) zero g {l} {m} e f =
    let next : composed (y ∷ c) g ≡ serve m = unfold composed in ap serve (some_inj.0 f) in
    ap some (ap (λ t. link t (composed (y ∷ c) g)) (some_inj.0 e) ∙ ap (link l) next)
fully_linked-pair (x ∷ y ∷ c) (suc i) g e f = fully_linked-pair (y ∷ c) i g e f

pub fully_linked-first :
    (l : Linker) (ls : List Linker) (g : Handler) {e : Linker}
    → get_elem? (fully_linked (l ∷ ls) g) 0 ≡ some e
    → serve e ≡ composed (l ∷ ls) g
unfolding fully_linked composed
fully_linked-first l ls g e = sym (ap serve (some_inj.0 e))
