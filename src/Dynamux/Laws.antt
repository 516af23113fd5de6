-- ===== src/Dynamux/Laws.antt =====
-- Which links the dynamic multiplexer serves, and when.
use xhttp.Prelude.{
  ◌≡◌, refl, ◌∙◌, ap, String, Bool, true, false, some, [], ◌∷◌, if◌then◌else◌, eq_refl,
}
use xhttp.Prelude.Int.{ℤ, pos, ◌+ℤ◌, ltb_ℤ}
use xhttp.Prelude.Dict.{Dict, lookup, insert, lookup-insert}
use xhttp.Http.{Exchange, Handler, returned, http_error, ◌>>=◌, serve_next}
use xhttp.Dynamux.{Link, link_serve, add_links, dynamux_serve, path_exists, served_link}

path_exists-present :
    (path : String) (l : Link) (links : Dict Link)
    → lookup path links ≡ some l
    → path_exists path links ≡ (true, path)
unfolding path_exists
path_exists-present path l links e = rw e

dynamux_serve-present :
    (now : ℤ) (l : Link) (links : Dict Link) (x : Exchange)
    → lookup x.req.path links ≡ some l
    → dynamux_serve now links x ≡ link_serve now l x
unfolding dynamux_serve
dynamux_serve-present now l links x e =
    ap (λ found. served_link now (lookup found.1 links) x)
      (path_exists-present x.req.path l links e)
    ∙ ap (λ o. served_link now o x) e

lookup-add_links :
    (l : Link) (links : Dict Link) (path : String)
    → path ≡ l.path
    → lookup path (add_links (l ∷ []) links) ≡ some l
unfolding add_links
lookup-add_links l links path e =
    ap (λ p. lookup p (insert l.path l links)) e
    ∙ lookup-insert l.path l.path l links
    ∙ rw (eq_refl l.path)

-- Where an active link ends up, by whether its age is still below the given one.
abbrev pub by_age : Bool → Link → Handler
by_age true l x = returned (http_error "Error: Link has expired" 404 x)
by_age false l x = serve_next l.handler x >>= (λ y. if l.proxied then l.fetch y else l.redirect y)

if-by_age :
    (b : Bool) (l : Link) (x : Exchange)
    → (if b
        then returned (http_error "Error: Link has expired" 404 x)
        else (serve_next l.handler x >>= (λ y. if l.proxied then l.fetch y else l.redirect y)))
      ≡ by_age b l x
if-by_age true l x = refl
if-by_age false l x = refl

link_serve-active :
    (now : ℤ) (l : Link) (x : Exchange)
    → l.active ≡ true
    → ltb_ℤ l.max_age (pos 0) ≡ false
    → link_serve now l x ≡ by_age (ltb_ℤ now (l.created_at +ℤ l.max_age)) l x
unfolding link_serve
link_serve-active now l x active age =
    simp (active, age, if-by_age (ltb_ℤ now (l.created_at +ℤ l.max_age)) l x)

-- A request at the path of an active link that was just added, with an age that is not negative, is
-- answered with 404 "expired" as long as its age is below the given one, and is run through the
-- link's handler and then its proxy or its redirection once the age has passed.
pub dynamux_serve-add_links :
    (now : ℤ) (l : Link) (links : Dict Link) (x : Exchange)
    → x.req.path ≡ l.path
    → l.active ≡ true
    → ltb_ℤ l.max_age (pos 0) ≡ false
    → dynamux_serve now (add_links (l ∷ []) links) x
      ≡ by_age (ltb_ℤ now (l.created_at +ℤ l.max_age)) l x
dynamux_serve-add_links now l links x at active age =
    dynamux_serve-present now l (add_links (l ∷ []) links) x
      (lookup-add_links l links x.req.path at)
    ∙ link_serve-active now l x active age
