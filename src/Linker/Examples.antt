-- ===== src/Linker/Examples.antt =====
-- Runs of a chain of three handlers.
use xhttp.Prelude.{◌⊎◌, ◌≡◌, refl, String, none, some, List, [], ◌∷◌}
use xhttp.Http.{Exchange, Handler, Outcome, returned, write}
use xhttp.Linker.{Linker, linkable_handler, chain, chain_link, chain_serve}
use xhttp.Linker.Chain.{composed}
use xhttp.Linker.Laws.{serve-chain_link-chain}
use xhttp.Linker.Race.{Reach, start, answered, linked_from}
use xhttp.Linker.Race.Run.{race-answers_for_other}
use xhttp.Linker.Race.Answers.{Reach-answered}

abbrev blank : Exchange
blank = record {
  req = record { method = "GET"; scheme = "http"; path = "/"; header = []; cookies = []; ctx = [] };
  res = record { header = []; sent = none; body = [] };
}

abbrev writes : String → Handler
writes text x = returned (record x { res = write text x.res })

abbrev first : Linker
first = linkable_handler (writes "a")

abbrev more : List Linker
more = linkable_handler (writes "b") ∷ linkable_handler (writes "c") ∷ []

abbrev body : Outcome → List String
body (returned x) = x.res.body
body _ = []

-- The handlers write in the order of the chain.
order_test : body (composed (first ∷ more) (writes "end") blank) ≡ "a" ∷ "b" ∷ "c" ∷ "end" ∷ []
unfolding composed write linkable_handler
order_test = refl

serve-chain_link-chain_example :
    (c c' : List Linker) × (chain (first ∷ more) ≡ some c)
    × (chain_link c (writes "end") ≡ some c')
    × ((x : Exchange) → chain_serve c' x ≡ composed (first ∷ more) (writes "end") x)
serve-chain_link-chain_example = serve-chain_link-chain first more (writes "end")

race-answers_for_other_example :
    (c : List Linker) × Reach
      (start (first ∷ more) (writes "end") blank (writes "other") blank)
      (record {
        slice = c;
        first = answered (composed (first ∷ more) (writes "other") blank);
        second = linked_from 0 blank;
      })
race-answers_for_other_example =
    race-answers_for_other first more (writes "end") (writes "other") blank blank

Reach-answered_example :
    (composed (first ∷ more) (writes "other") blank ≡ composed (first ∷ more) (writes "end") blank)
    ⊎ (composed (first ∷ more) (writes "other") blank
        ≡ composed (first ∷ more) (writes "other") blank)
Reach-answered_example =
    Reach-answered first more (writes "end") (writes "other") blank blank
      (race-answers_for_other first more (writes "end") (writes "other") blank blank).1
