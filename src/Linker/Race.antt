-- ===== src/Linker/Race.antt =====
-- Two requests at one shared slice. multiplexer.go serves each request in its own goroutine by
-- `sm.catchAll.Link(vh).ServeHTTP(w, req)`: Link writes into the slice that all requests share, one
-- element after the other and without a lock, and ServeHTTP reads the slice again. A step here reads
-- elements, writes one element, or serves; the steps of the two requests interleave.
pub mod Elements
pub mod Run
pub mod Answers
use xhttp.Prelude.{
  ℕ, zero, suc, ◌-◌, ◌≤◌, ◌≡◌, refl, sym, ◌∙◌, ap, ◌⊎◌, inl, inr, some, List, ◌∷◌, ◌≢◌, subst, none,
  [], get_elem?, set, length, length-set, arith,
}
use xhttp.Http.{Exchange, Handler, Outcome}
use xhttp.Linker.{
  Linker, link, serve, link_at, relink, last_linked, linked_pair, link_last, chain_serve,
}
use xhttp.Linker.Chain.{composed, fully_linked, relink-link_last}
use xhttp.Linker.Laws.{runs, fully_linked-congr, runs-fully_linked}

-- Where a request stands: before Link; in Link with the new element for an index at hand, or with the
-- elements from an index on written; or answered.
pub data Phase : Type 0 where
  waiting : Handler → Exchange → Phase
  writing : ℕ → Linker → Exchange → Phase
  linked_from : ℕ → Exchange → Phase
  answered : Outcome → Phase

-- One request's step on the slice: `nh := h[length-1].Link(l)`; `h[i] = nh`;
-- `nh := h[i].Link(h[i+1])`, for i = length-2, ..., 1, 0; and ServeHTTP.
pub data Move : List Linker → Phase → List Linker → Phase → Type 0 where
  read_last :
      {c : List Linker} {l : Linker} (h : Handler) (x : Exchange)
      → get_elem? c (length c - 1) ≡ some l
      → Move c (waiting h x) c (writing (length c - 1) (link l h) x)
  write_back :
      {c : List Linker} (i : ℕ) (nh : Linker) (x : Exchange)
      → Move c (writing i nh x) (set c i nh) (linked_from i x)
  read_pair :
      {c : List Linker} {l m : Linker} (i : ℕ) (x : Exchange)
      → get_elem? c i ≡ some l
      → get_elem? c (suc i) ≡ some m
      → Move c (linked_from (suc i) x) c (writing i (link l (serve m)) x)
  do_serve :
      {c : List Linker} (x : Exchange) → Move c (linked_from zero x) c (answered (chain_serve c x))

pub record Shared : Type 0 where
  pub slice : List Linker
  pub first : Phase
  pub second : Phase

pub data Step : Shared → Shared → Type 0 where
  left :
      {c c' : List Linker} {p p' q : Phase}
      → Move c p c' p'
      → Step
          (record { slice = c; first = p; second = q })
          (record { slice = c'; first = p'; second = q })
  right :
      {c c' : List Linker} {p q q' : Phase}
      → Move c q c' q'
      → Step
          (record { slice = c; first = p; second = q })
          (record { slice = c'; first = p; second = q' })

pub data Reach (s : Shared) : Shared → Type 0 where
  here : Reach s s
  next : {t u : Shared} → Reach s t → Step t u → Reach s u

-- Both requests wait at the slice that USE has stored: the first is for `h`, the second for `k`.
abbrev pub start : List Linker → Handler → Exchange → Handler → Exchange → Shared
start c h x k y = record { slice = c; first = waiting h x; second = waiting k y }
