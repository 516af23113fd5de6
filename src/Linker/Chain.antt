-- ===== src/Linker/Chain.antt =====
-- The index loops of Chain and handlerchain.Link against a recursion from the right end.
use xhttp.Prelude.{
  ℕ, zero, suc, ◌-◌, ◌≡◌, refl, ◌∙◌, ap, Option, none, some, List, [], ◌∷◌, get_elem?, length,
  arith,
}
use xhttp.Http.{Handler}
use xhttp.Linker.{Linker, link, linked_pair, link_at, relink, last_linked, link_last}

-- What a chain does: each link runs with the rest of the chain as its `next`.
unfoldable pub composed : List Linker → Handler → Handler
composed [] h = h
composed (l ∷ ls) h = l.run (some (composed ls h))

-- The slice after linking: each element has the rest of the chain as its `next`.
unfoldable pub fully_linked : List Linker → Handler → List Linker
unfolding composed
fully_linked [] h = []
fully_linked (l ∷ ls) h = link l (composed ls h) ∷ fully_linked ls h

link_at-cons : (j : ℕ) (x : Linker) (ls : List Linker) → link_at (suc j) (x ∷ ls) ≡ x ∷ link_at j ls
unfolding link_at
link_at-cons j x ls = pair (get_elem? ls j) (get_elem? ls (suc j))
  where
    pair : (a b : Option Linker) → linked_pair (x ∷ ls) (suc j) a b ≡ x ∷ linked_pair ls j a b
    pair none b = refl
    pair (some l) none = refl
    pair (some l) (some m) = refl

pub relink-cons :
    (k : ℕ) (x : Linker) (ls : List Linker) → relink (suc k) (x ∷ ls) ≡ link_at 0 (x ∷ relink k ls)
unfolding relink
relink-cons zero x ls = refl
relink-cons (suc k) x ls =
    ap (relink (suc k)) (link_at-cons k x ls) ∙ relink-cons k x (link_at k ls)

link_last-cons :
    (h : Handler) (x y : Linker) (ls : List Linker)
    → link_last h (x ∷ y ∷ ls) ≡ x ∷ link_last h (y ∷ ls)
unfolding link_last
link_last-cons h x y ls =
    let e : suc (suc (length ls)) - 1 ≡ suc (length ls) = omega arith in
    let e' : suc (length ls) - 1 ≡ length ls = omega arith in
    rw (e, e') (split (get_elem? (y ∷ ls) (length ls)))
  where
    split :
        (o : Option Linker)
        → last_linked (x ∷ y ∷ ls) (suc (length ls)) h o ≡ x ∷ last_linked (y ∷ ls) (length ls) h o
    split none = refl
    split (some l) = refl

-- handlerchain.Link leaves each element linked to the rest of the chain.
pub relink-link_last :
    (l : Linker) (ls : List Linker) (h : Handler)
    → relink (length ls) (link_last h (l ∷ ls)) ≡ fully_linked (l ∷ ls) h
unfolding fully_linked relink link_last link_at
relink-link_last l [] h = refl
relink-link_last l (m ∷ ls) h =
    ap (relink (suc (length ls))) (link_last-cons h l m ls)
    ∙ relink-cons (length ls) l (link_last h (m ∷ ls))
    ∙ ap (λ t. link_at 0 (l ∷ t)) (relink-link_last m ls h)
