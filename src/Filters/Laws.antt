-- ===== src/Filters/Laws.antt =====
-- What the small handlers pass on.
use xhttp.Prelude.{
  ℕ, ◌<◌, ◌+◌, ◌∙◌, ◌≡◌, ◌≢◌, refl, String, true, false, Option, none, some, ltb, arith,
}
use xhttp.Prelude.Text.{trim_prefix, nonempty-is_false}
use xhttp.Http.{Exchange, Handler, Outcome, returned, panicked}
use xhttp.Filters.{stripprefix_serve, strip, not_found, panic_serve, recovered}
use Prim.Native.String
use Prim.Native.String.len
use Prim.Native.String.{len, slice}
use text.Mathlib.Text.{starts_with}
use text.Mathlib.TextPositions.{slice-append_right, len-append, starts_with-append, len_utf8-pos}

not-shorter : (n : ℕ) → ltb n n ≡ false
not-shorter n = ground arith

shorter : (m n : ℕ) → 0 < m → ltb n (m + n) ≡ true
shorter m n h = ground arith

nonempty-len : (s : String) → s ≢ "" → 0 < len s
nonempty-len String.[] ne = elim (ne refl) [ ]
nonempty-len (String.◌∷◌ c s) ne = ground (arith, len.cons c s, (len_utf8-pos c).1)

trim_prefix-append : (prefix rest : String) → trim_prefix (String.◌++◌ prefix rest) prefix ≡ rest
unfolding trim_prefix
trim_prefix-append prefix rest =
    rw (starts_with-append prefix rest, len-append prefix rest, slice-append_right prefix rest)

strip-append :
    (prefix rest : String) (h : Handler) (x : Exchange)
    → prefix ≢ ""
    → x.req.path ≡ String.◌++◌ prefix rest
    → strip prefix (some h) x ≡ h (record x { req = record x.req { path = rest } })
unfolding strip
strip-append prefix rest h x ne e = simp (
  e,
  trim_prefix-append prefix rest,
  len-append prefix rest,
  shorter (len prefix) (len rest) (nonempty-len prefix ne),
)

strip-other :
    (prefix : String) (next : Option Handler) (x : Exchange)
    → starts_with x.req.path prefix ≡ false
    → strip prefix next x ≡ returned (not_found x)
unfolding strip trim_prefix
strip-other prefix next x ne = rw (ne, not-shorter (len x.req.path))

stripprefix_serve-strip :
    (prefix : String) (h : Handler) (x : Exchange)
    → prefix ≢ ""
    → stripprefix_serve prefix (some h) x ≡ strip prefix (some h) x
unfolding stripprefix_serve
stripprefix_serve-strip prefix h x ne = rw (nonempty-is_false prefix ne)

-- A handler behind a nonempty prefix gets a request whose path is the prefix and a rest with exactly
-- that rest as its path, and nothing else changed.
pub stripprefix_serve-append :
    (prefix rest : String) (h : Handler) (x : Exchange)
    → prefix ≢ ""
    → x.req.path ≡ String.◌++◌ prefix rest
    → stripprefix_serve prefix (some h) x ≡ h (record x { req = record x.req { path = rest } })
stripprefix_serve-append prefix rest h x ne e =
    stripprefix_serve-strip prefix h x ne ∙ strip-append prefix rest h x ne e

-- A request whose path does not start with the nonempty prefix is answered with 404, and the handler
-- is not called.
pub stripprefix_serve-other :
    (prefix : String) (h : Handler) (x : Exchange)
    → prefix ≢ ""
    → starts_with x.req.path prefix ≡ false
    → stripprefix_serve prefix (some h) x ≡ returned (not_found x)
stripprefix_serve-other prefix h x ne other =
    stripprefix_serve-strip prefix h x ne ∙ strip-other prefix (some h) x other

recovered-returned :
    (handle : String → Handler) (o : Outcome)
    → ((msg : String) (y : Exchange) → (z : Exchange) × (handle msg y ≡ returned z))
    → (z : Exchange) × (recovered handle o ≡ returned z)
recovered-returned handle (returned y) ok = (y, refl)
recovered-returned handle (panicked msg y) ok = ok msg y

-- A handler behind the panic handler never panics, if the function that is run on a panic does not.
pub panic_serve-returned :
    (handle : String → Handler) (next : Option Handler) (x : Exchange)
    → ((msg : String) (y : Exchange) → (z : Exchange) × (handle msg y ≡ returned z))
    → (z : Exchange) × (panic_serve handle next x ≡ returned z)
unfolding panic_serve
panic_serve-returned handle none x ok = ok "Panic Handler was ill-registered" x
panic_serve-returned handle (some h) x ok = recovered-returned handle (h x) ok
