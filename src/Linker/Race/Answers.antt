-- ===== src/Linker/Race/Answers.antt =====
-- What two requests at one shared slice can be answered by.
use xhttp.Prelude.{
  ℕ, zero, suc, ◌-◌, ◌≤◌, ◌≡◌, refl, sym, ◌∙◌, ap, ◌⊎◌, inl, inr, some, List, ◌∷◌, subst, [],
  get_elem?, set, length, arith,
}
use xhttp.Http.{Exchange, Handler, Outcome}
use xhttp.Linker.{Linker, link, serve, chain_serve}
use xhttp.Linker.Chain.{composed, fully_linked}
use xhttp.Linker.Laws.{runs, fully_linked-congr, runs-fully_linked}
use xhttp.Linker.Race.Elements.{
  get_elem?-length, get_elem?-set, runs-set_like, fully_linked-last, fully_linked-pair,
  fully_linked-first,
}
use xhttp.Linker.Race.{
  Phase, waiting, writing, linked_from, answered, Move, read_last, write_back, read_pair, do_serve,
  Shared, Step, left, right, Reach, here, next, start,
}

module _ (l : Linker) (ls : List Linker) (h k : Handler) (x y : Exchange) where
  -- The element has the rest of the chain as its `next`, up to one of the two handlers.
  abbrev Ends : ℕ → Linker → Type 0
  Ends i e =
      (get_elem? (fully_linked (l ∷ ls) h) i ≡ some e)
      ⊎ (get_elem? (fully_linked (l ∷ ls) k) i ≡ some e)

  abbrev Done : List Linker → ℕ → Type 0
  Done c i = (j : ℕ) (e : Linker) → i ≤ j → get_elem? c j ≡ some e → Ends j e

  abbrev Answer : Exchange → Outcome → Type 0
  Answer z o = (o ≡ composed (l ∷ ls) h z) ⊎ (o ≡ composed (l ∷ ls) k z)

  -- What holds of a request for `g`, which is `h` or `k`, and `z` while the slice is `c`.
  abbrev Fits : List Linker → Handler → Exchange → Phase → Type 0
  Fits c g z (waiting g' z') = (g' ≡ g) × (z' ≡ z)
  Fits c g z (writing i nh z') = (z' ≡ z) × Ends i nh × Done c (suc i)
  Fits c g z (linked_from i z') = (z' ≡ z) × Done c i
  Fits c g z (answered o) = Answer z o

  abbrev SameRuns : List Linker → Type 0
  SameRuns c = runs c ≡ runs (l ∷ ls)

  record IsSound (s : Shared) : Type 0 where
    same : SameRuns s.slice
    first_fits : Fits s.slice h x s.first
    second_fits : Fits s.slice k y s.second

  Done-set : (c : List Linker) (i n : ℕ) (nh : Linker) → Ends i nh → Done c n → Done (set c i nh) n
  Done-set c i n nh ends done j e le at = elim (get_elem?-set c i j nh at) [
    | inl (at_i, new) ↦ subst (λ t. Ends t e) at_i (subst (Ends i) new ends)
    | inr (_, old) ↦ done j e le old
  ]

  Done-write :
      (c : List Linker) (i : ℕ) (nh : Linker) → Ends i nh → Done c (suc i) → Done (set c i nh) i
  Done-write c i nh ends done j e le at = elim (get_elem?-set c i j nh at) [
    | inl (at_i, new) ↦ subst (λ t. Ends t e) at_i (subst (Ends i) new ends)
    | inr (ne, old) ↦ done j e (omega (arith, ne)) old
  ]

  -- A write by one request keeps what holds of the other.
  Fits-set :
      (c : List Linker) (i : ℕ) (nh : Linker) (g : Handler) (z : Exchange) (p : Phase)
      → Ends i nh
      → Fits c g z p
      → Fits (set c i nh) g z p
  Fits-set c i nh g z (waiting g' z') ends f = f
  Fits-set c i nh g z (writing j m z') ends (same, ends', done) =
      (same, ends', Done-set c i (suc j) nh ends done)
  Fits-set c i nh g z (linked_from j z') ends (same, done) = (same, Done-set c i j nh ends done)
  Fits-set c i nh g z (answered o) ends f = f

  SameRuns-set :
      (c : List Linker) (i : ℕ) (nh : Linker) → Ends i nh → SameRuns c → SameRuns (set c i nh)
  SameRuns-set c i nh (inl e) same =
      runs-set_like c (fully_linked (l ∷ ls) h) i (runs-fully_linked (l ∷ ls) h ∙ sym same) e ∙ same
  SameRuns-set c i nh (inr e) same =
      runs-set_like c (fully_linked (l ∷ ls) k) i (runs-fully_linked (l ∷ ls) k ∙ sym same) e ∙ same

  relinked :
      (c : List Linker) (g : Handler) → SameRuns c → fully_linked c g ≡ fully_linked (l ∷ ls) g
  relinked c g same = fully_linked-congr c (l ∷ ls) g same

  last-at :
      (c : List Linker) (g : Handler) {e : Linker}
      → SameRuns c
      → get_elem? c (length c - 1) ≡ some e
      → get_elem? (fully_linked (l ∷ ls) g) (length c - 1) ≡ some (link e g)
  last-at c g same at =
      ap (λ d. get_elem? d (length c - 1)) (sym (relinked c g same))
      ∙ fully_linked-last c (length c - 1) g at
          (omega (arith, get_elem?-length c (length c - 1) at))

  pair-at :
      (c : List Linker) (i : ℕ) (g : Handler) {e m : Linker}
      → SameRuns c
      → get_elem? c i ≡ some e
      → get_elem? (fully_linked (l ∷ ls) g) (suc i) ≡ some m
      → get_elem? (fully_linked (l ∷ ls) g) i ≡ some (link e (serve m))
  pair-at c i g same at behind =
      ap (λ d. get_elem? d i) (sym (relinked c g same))
      ∙ fully_linked-pair c i g at (ap (λ d. get_elem? d (suc i)) (relinked c g same) ∙ behind)

  pair-Ends :
      (c : List Linker) (i : ℕ) {e m : Linker}
      → SameRuns c
      → get_elem? c i ≡ some e
      → Ends (suc i) m
      → Ends i (link e (serve m))
  pair-Ends c i same at (inl b) = inl (pair-at c i h same at b)
  pair-Ends c i same at (inr b) = inr (pair-at c i k same at b)

  past_end : (c : List Linker) → Done c (suc (length c - 1))
  past_end c j e le at = absurd (omega (arith, get_elem?-length c j at))

  answer : (c : List Linker) (z : Exchange) → SameRuns c → Done c zero → Answer z (chain_serve c z)
  unfolding chain_serve
  answer [] z same done = absurd (cc)
  answer (e ∷ c) z same done = elim (done zero e (omega arith) refl) [
    | inl f ↦ inl (ap (λ g. g z) (fully_linked-first l ls h f))
    | inr f ↦ inr (ap (λ g. g z) (fully_linked-first l ls k f))
  ]

  -- What a step keeps: what the slice runs, what holds of the request that makes the step, and what
  -- holds of the other.
  Move-Fits :
      {c c' : List Linker} {p p' : Phase} (g g' : Handler) (z z' : Exchange) (q : Phase)
      → ((g ≡ h) ⊎ (g ≡ k))
      → Move c p c' p'
      → SameRuns c
      → Fits c g z p
      → Fits c g' z' q
      → SameRuns c' × Fits c' g z p' × Fits c' g' z' q
  Move-Fits g g' z z' q which (read_last {c} {l = e} f w at) same (for_g, for_z) other =
      let ends : Ends (length c - 1) (link e f) = elim which [
        | inl is_h ↦ inl (last-at c h same at ∙ ap (λ t. some (link e t)) (sym (for_g ∙ is_h)))
        | inr is_k ↦ inr (last-at c k same at ∙ ap (λ t. some (link e t)) (sym (for_g ∙ is_k)))
      ] in
      (same, (for_z, ends, past_end c), other)
  Move-Fits g g' z z' q which (write_back {c} i nh w) same (for_z, ends, done) other = (
    SameRuns-set c i nh ends same,
    (for_z, Done-write c i nh ends done),
    Fits-set c i nh g' z' q ends other,
  )
  Move-Fits g g' z z' q which (read_pair {c} {l = e} {m} i w at behind) same (for_z, done) other =
      (same, (for_z, pair-Ends c i same at (done (suc i) m (omega arith) behind), done), other)
  Move-Fits g g' z z' q which (do_serve {c} w) same (for_z, done) other =
      (same, subst (λ t. Answer z (chain_serve c t)) (sym for_z) (answer c z same done), other)

  Step-IsSound : {s t : Shared} → Step s t → IsSound s → IsSound t
  Step-IsSound (left {q = q} m) v =
      let (same, fits, other) =
        Move-Fits h k x y q (inl refl) m v.same v.first_fits v.second_fits in
      record { same = same; first_fits = fits; second_fits = other }
  Step-IsSound (right {p = p} m) v =
      let (same, fits, other) =
        Move-Fits k h y x p (inr refl) m v.same v.second_fits v.first_fits in
      record { same = same; first_fits = other; second_fits = fits }

  Reach-IsSound : {t : Shared} → Reach (start (l ∷ ls) h x k y) t → IsSound t
  Reach-IsSound here = record { same = refl; first_fits = (refl, refl); second_fits = (refl, refl) }
  Reach-IsSound (next r st) = Step-IsSound st (Reach-IsSound r)

  -- However the reads and writes of two requests interleave on one slice, the first one, once it is
  -- answered, was served by the whole chain ended by one of the two handlers.
  pub Reach-answered :
      {c : List Linker} {o : Outcome} {q : Phase}
      → Reach (start (l ∷ ls) h x k y) (record { slice = c; first = answered o; second = q })
      → (o ≡ composed (l ∷ ls) h x) ⊎ (o ≡ composed (l ∷ ls) k x)
  Reach-answered r = (Reach-IsSound r).first_fits
