-- ===== src/Linker/Laws.antt =====
-- What Chain and handlerchain.Link make of a list of handlers.
use xhttp.Prelude.{
  ℕ, zero, suc, ◌≡◌, refl, sym, ◌∙◌, ap, Option, none, some, List, [], ◌∷◌, map, get_elem?, set,
  length, arith,
}
use xhttp.Http.{Exchange, Handler, ◌>>=◌}
use xhttp.Linker.{
  Linker, link, serve, linked_pair, link_at, relink, chain, chain_link, chain_serve,
  linkable_handler,
}
use xhttp.Linker.Chain.{composed, fully_linked, relink-link_last}

abbrev pub runs : List Linker → List (Option Handler → Handler)
runs ls = map (λ l. l.run) ls

runs-set :
    (ls : List Linker) (j : ℕ) (l : Linker) (h : Handler)
    → get_elem? ls j ≡ some l
    → runs (set ls j (link l h)) ≡ runs ls
runs-set [] j l h e = refl
runs-set (m ∷ ls) zero l h e = ground arith
runs-set (m ∷ ls) (suc j) l h e = ap (λ t. m.run ∷ t) (runs-set ls j l h e)

runs-link_at : (j : ℕ) (ls : List Linker) → runs (link_at j ls) ≡ runs ls
unfolding link_at
runs-link_at j ls = pair (get_elem? ls j) (get_elem? ls (suc j)) refl
  where
    pair : (a b : Option Linker) → get_elem? ls j ≡ a → runs (linked_pair ls j a b) ≡ runs ls
    pair none b e = refl
    pair (some l) none e = refl
    pair (some l) (some m) e = runs-set ls j l (serve m) e

runs-relink : (k : ℕ) (ls : List Linker) → runs (relink k ls) ≡ runs ls
unfolding relink
runs-relink zero ls = refl
runs-relink (suc k) ls = runs-relink k (link_at k ls) ∙ runs-link_at k ls

abbrev composed_by : List (Option Handler → Handler) → Handler → Handler
composed_by [] h = h
composed_by (r ∷ rs) h = r (some (composed_by rs h))

abbrev linked_by : List (Option Handler → Handler) → Handler → List Linker
linked_by [] h = []
linked_by (r ∷ rs) h = record { run = r; next = some (composed_by rs h) } ∷ linked_by rs h

composed-runs : (ls : List Linker) (h : Handler) → composed ls h ≡ composed_by (runs ls) h
unfolding composed
composed-runs [] h = refl
composed-runs (l ∷ ls) h = ap (λ k. l.run (some k)) (composed-runs ls h)

fully_linked-runs : (ls : List Linker) (h : Handler) → fully_linked ls h ≡ linked_by (runs ls) h
unfolding fully_linked
fully_linked-runs [] h = refl
fully_linked-runs (l ∷ ls) h = cc (composed-runs ls h, fully_linked-runs ls h)

pub runs-fully_linked : (ls : List Linker) (h : Handler) → runs (fully_linked ls h) ≡ runs ls
unfolding fully_linked
runs-fully_linked [] h = refl
runs-fully_linked (l ∷ ls) h = ap (λ t. l.run ∷ t) (runs-fully_linked ls h)

-- Two slices whose elements run alike are linked alike.
pub fully_linked-congr :
    (ls ms : List Linker) (h : Handler) → runs ls ≡ runs ms → fully_linked ls h ≡ fully_linked ms h
fully_linked-congr ls ms h e =
    fully_linked-runs ls h ∙ ap (λ rs. linked_by rs h) e ∙ sym (fully_linked-runs ms h)

pub chain_link_lem :
    (l : Linker) (ls : List Linker) (h : Handler)
    → chain_link (l ∷ ls) h ≡ some (fully_linked (l ∷ ls) h)
unfolding chain_link
chain_link_lem l ls h = ap some (relink-link_last l ls h)

-- Linking a slice depends only on what its elements run.
chain_link-congr :
    (l : Linker) (ls cs : List Linker) (h : Handler)
    → runs cs ≡ runs (l ∷ ls)
    → chain_link cs h ≡ some (fully_linked (l ∷ ls) h)
chain_link-congr l ls [] h e = cc
chain_link-congr l ls (c ∷ cs) h e =
    chain_link_lem c cs h ∙ ap some (fully_linked-congr (c ∷ cs) (l ∷ ls) h e)

-- Chain of one handler or more gives a slice; linked to any handler `h`, that slice serves every
-- request by running the first handler with the second as its `next`, and so on, the last with `h`.
pub serve-chain_link-chain :
    (l : Linker) (ls : List Linker) (h : Handler)
    → (c c' : List Linker) × (chain (l ∷ ls) ≡ some c)
      × (chain_link c h ≡ some c')
      × ((x : Exchange) → chain_serve c' x ≡ composed (l ∷ ls) h x)
serve-chain_link-chain l ls h = (
  relink (length ls) (l ∷ ls),
  fully_linked (l ∷ ls) h,
  (unfold chain in refl),
  chain_link-congr l ls (relink (length ls) (l ∷ ls)) h (runs-relink (length ls) (l ∷ ls)),
  λ x. (unfold chain_serve fully_linked composed in refl),
)

-- A chain of linkable handlers runs them in the order in which they are listed, then the last one;
-- the first that panics ends it.
pub composed-linkable_handler :
    (h k : Handler) (ls : List Linker) (x : Exchange)
    → composed (linkable_handler h ∷ ls) k x ≡ (h x >>= composed ls k)
unfolding composed linkable_handler
composed-linkable_handler h k ls x = refl
