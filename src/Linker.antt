-- ===== src/Linker.antt =====
-- handler.go, and Chain with the type handlerchain of multiplexer.go: handlers that can be linked.
-- A value of a handler type of the library is a struct whose `next` field says what runs after it;
-- `Link` stores into the field of a copy and returns the copy.
pub mod Chain
pub mod Race
pub mod Laws
mod Examples
use xhttp.Prelude.{ℕ, zero, suc, Option, none, some, List, [], ◌∷◌, get_elem?, set, length, ◌-◌}
use xhttp.Http.{Exchange, Handler, Outcome, panicked, ◌>>=◌, serve_next}

-- HandlerLinker: `run` is the method ServeHTTP as it depends on the field `next`.
pub record Linker : Type 0 where
  pub run : Option Handler → Handler
  pub next : Option Handler

-- l.Link(h)
abbrev pub link : Linker → Handler → Linker
link l h = record l { next = some h }

-- l.ServeHTTP
abbrev pub serve : Linker → Handler
serve l = l.run l.next

-- handlerlinker.ServeHTTP
handlerlinker_serve : Handler → Option Handler → Handler
handlerlinker_serve handler next x = do y ← handler x; serve_next next y

-- LinkableHandler
unfoldable pub linkable_handler : Handler → Linker
unfolding handlerlinker_serve
linkable_handler h = record { run = handlerlinker_serve h; next = none }

-- One round of the loops of `Chain` and of handlerchain.Link: h[j] = h[j].Link(h[j+1]).
abbrev linked_pair : List Linker → ℕ → Option Linker → Option Linker → List Linker
linked_pair ls j (some l) (some m) = set ls j (link l (serve m))
linked_pair ls j _ _ = ls

pub link_at : ℕ → List Linker → List Linker
link_at j ls = linked_pair ls j (get_elem? ls j) (get_elem? ls (suc j))

-- The loop `for i := range h[:l-1]`, which links the elements j = l-2-i, ..., 1, 0 in this order.
pub relink : ℕ → List Linker → List Linker
relink zero ls = ls
relink (suc j) ls = relink j (link_at j ls)

-- Chain(handlers...): `nil` for no handler, and otherwise the slice itself, linked in place.
unfoldable pub chain : List Linker → Option (List Linker)
unfolding relink link_at
chain [] = none
chain (l ∷ ls) = some (relink (length ls) (l ∷ ls))

abbrev last_linked : List Linker → ℕ → Handler → Option Linker → List Linker
last_linked ls i h (some l) = set ls i (link l h)
last_linked ls i h none = ls

pub link_last : Handler → List Linker → List Linker
link_last h ls = let i = length ls - 1 in last_linked ls i h (get_elem? ls i)

-- handlerchain.Link: the slice that it has written; `none` where it panics.
unfoldable pub chain_link : List Linker → Handler → Option (List Linker)
unfolding relink link_at link_last
chain_link [] h = none
chain_link (l ∷ ls) h = some (relink (length ls) (link_last h (l ∷ ls)))

-- handlerchain.ServeHTTP
unfoldable pub chain_serve : List Linker → Handler
chain_serve [] x = panicked "index out of range" x
chain_serve (l ∷ ls) x = serve l x
