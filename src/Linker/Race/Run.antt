-- ===== src/Linker/Race/Run.antt =====
-- A run in which one request is answered in place of the other.
use xhttp.Prelude.{
  ℕ, zero, suc, ◌-◌, ◌≤◌, ◌≡◌, refl, sym, ◌∙◌, ap, List, ◌∷◌, subst, set, length, length-set, arith,
}
use xhttp.Http.{Exchange, Handler}
use xhttp.Linker.{Linker, link, serve, link_at, relink, link_last, chain_serve}
use xhttp.Linker.Chain.{composed, fully_linked, relink-link_last}
use xhttp.Linker.Laws.{fully_linked-congr, runs-fully_linked}
use xhttp.Linker.Race.Elements.{get_elem?-some}
use xhttp.Linker.Race.{
  Phase, waiting, linked_from, answered, Move, read_last, write_back, read_pair, do_serve, Shared,
  left, right, Reach, here, next, start,
}

-- One request's steps, one after the other
data Moves (c : List Linker) (p : Phase) : List Linker → Phase → Type 0 where
  stay : Moves c p c p
  and_then :
      {c' c'' : List Linker} {p' p'' : Phase}
      → Moves c p c' p'
      → Move c' p' c'' p''
      → Moves c p c'' p''

Moves-trans :
    {a b : List Linker} {p q : Phase} {c : List Linker} {r : Phase}
    → Moves a p b q
    → Moves b q c r
    → Moves a p c r
Moves-trans m stay = m
Moves-trans m (and_then n s) = and_then (Moves-trans m n) s

Reach-left :
    {s : Shared} {c : List Linker} {p q : Phase} {c' : List Linker} {p' : Phase}
    → Reach s (record { slice = c; first = p; second = q })
    → Moves c p c' p'
    → Reach s (record { slice = c'; first = p'; second = q })
Reach-left r stay = r
Reach-left r (and_then m s) = next (Reach-left r m) (left s)

Reach-right :
    {s : Shared} {c : List Linker} {p q : Phase} {c' : List Linker} {q' : Phase}
    → Reach s (record { slice = c; first = p; second = q })
    → Moves c q c' q'
    → Reach s (record { slice = c'; first = p; second = q' })
Reach-right r stay = r
Reach-right r (and_then m s) = next (Reach-right r m) (right s)

-- The rounds of the loop of Link, without another request in between
rounds :
    (i : ℕ) (c : List Linker) (x : Exchange)
    → suc i ≤ length c
    → Moves c (linked_from i x) (relink i c) (linked_from zero x)
unfolding relink link_at
rounds zero c x n = stay
rounds (suc i) c x n =
    let (l, e) = get_elem?-some c i (omega arith) in
    let (m, f) = get_elem?-some c (suc i) n in
    let c' = set c i (link l (serve m)) in
    let at : link_at i c ≡ c' = rw (e, f) refl in
    Moves-trans (and_then (and_then stay (read_pair i x e f)) (write_back i (link l (serve m)) x)) (
      subst (λ d. Moves c' (linked_from i x) (relink i d) (linked_from zero x)) (sym at)
        (rounds i c' x (omega (arith, length-set c i (link l (serve m))))))

-- The whole of Link, without another request in between
whole_link :
    (l : Linker) (ls : List Linker) (h : Handler) (x : Exchange)
    → Moves (l ∷ ls) (waiting h x) (fully_linked (l ∷ ls) h) (linked_from zero x)
unfolding link_last
whole_link l ls h x =
    let c = l ∷ ls in
    let i = length c - 1 in
    let at_end : i ≡ length ls = omega arith in
    let (m, e) = get_elem?-some c i (omega arith) in
    let c' = set c i (link m h) in
    let at : link_last h c ≡ c' = rw e refl in
    let done : relink i c' ≡ fully_linked c h =
      ap (relink i) (sym at)
      ∙ ap (λ j. relink j (link_last h c)) at_end
      ∙ relink-link_last l ls h in
    Moves-trans (and_then (and_then stay (read_last h x e)) (write_back i (link m h) x)) (
      subst (λ d. Moves c' (linked_from i x) d (linked_from zero x)) done
        (rounds i c' x (omega (arith, length-set c i (link m h)))))

-- From any chain and any two requests there is a run in which the first request, made for the
-- handler `h`, is answered by the chain that ends in the other request's handler `k`.
pub race-answers_for_other :
    (l : Linker) (ls : List Linker) (h k : Handler) (x y : Exchange)
    → (c : List Linker) × Reach (start (l ∷ ls) h x k y) (record {
      slice = c;
      first = answered (composed (l ∷ ls) k x);
      second = linked_from zero y;
    })
unfolding fully_linked composed chain_serve
race-answers_for_other l ls h k x y =
    let same =
      fully_linked-congr (fully_linked (l ∷ ls) h) (l ∷ ls) k (runs-fully_linked (l ∷ ls) h) in
    let again : Moves (fully_linked (l ∷ ls) h) (waiting k y) (fully_linked (l ∷ ls) k)
        (linked_from zero y) =
      subst (λ d. Moves (fully_linked (l ∷ ls) h) (waiting k y) d (linked_from zero y)) same
        (whole_link (link l (composed ls h)) (fully_linked ls h) k y) in
    (
      fully_linked (l ∷ ls) k,
      next (Reach-right (Reach-left here (whole_link l ls h x)) again) (left (do_serve x)),
    )
