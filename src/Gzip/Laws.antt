-- ===== src/Gzip/Laws.antt =====
-- Which requests the compressing handler leaves alone.
use xhttp.Prelude.{
  String, Bool, true, false, Option, none, some, not, if◌then◌else◌, ◌≡◌, refl, ◌==◌, is_some,
  arith, ◌∙◌, ap, sym,
}
use xhttp.Prelude.Text.{to_upper}
use xhttp.Prelude.Dict.{lookup, insert, lookup-insert}
use xhttp.Gzip.{Gzipper, skip_method, must_skip, set_to_true}

if-set_to_true :
    (b : Bool) (o : Option Bool)
    → set_to_true (if b then some true else o) ≡ (if b then true else set_to_true o)
if-set_to_true true o = refl
if-set_to_true false o = refl

must_skip-insert :
    (method m : String) (g : Gzipper)
    → must_skip (record g { skip = insert method true g.skip }) m
      ≡ (if method == to_upper m then true else must_skip g m)
unfolding must_skip
must_skip-insert method m g =
    ap set_to_true (lookup-insert method (to_upper m) true g.skip)
    ∙ if-set_to_true (method == to_upper m) (lookup (to_upper m) g.skip)

skipped :
    (b : Bool) (method m : String) (g g' : Gzipper)
    → (if not b then none else some (record g { skip = insert method true g.skip })) ≡ some g'
    → must_skip g' m ≡ (if method == to_upper m then true else must_skip g m)
skipped false method m g g' e = ground (arith, e)
skipped true method m g g' e =
    ap (λ o. elim o [ none ↦ false | some h ↦ must_skip h m ]) (sym e) ∙ must_skip-insert method m g

-- After Skip(method), whether a request's method is skipped has changed only for the method written
-- as it was given to Skip: a name in lower case, which Skip accepts, changes nothing.
pub must_skip-skip_method :
    (method m : String) (g g' : Gzipper)
    → skip_method method g ≡ some g'
    → must_skip g' m ≡ (if method == to_upper m then true else must_skip g m)
unfolding skip_method
must_skip-skip_method method m g g' e =
    skipped (is_some (lookup (to_upper method) g.skip)) method m g g' e
