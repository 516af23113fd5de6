-- ===== src/Session/Samples.antt =====
-- A codec, a cookie and stores to try the session handler on.
use Prim.Native.Char.{Char, code}
use Prim.Native.String.{char_at, ◌++◌}
use xhttp.Prelude.{
  ◌≡◌, refl, ◌∙◌, sym, subst, ap, String, Bool, true, false, Option, none, some, [], ◌∷◌,
  if◌then◌else◌, nat_eq, arith, ◌==◌, eq_iff, nat_eq_iff,
}
use xhttp.Prelude.Dict.{Dict, lookup, insert, lookup-insert}
use xhttp.Prelude.Int.{ℤ, pos}
use xhttp.Prelude.Text.{Lacks}
use mathlib.Core.Option.{some_inj}
use text.Mathlib.TextEquality.{Char-path}
use xhttp.Context.{HttpCookie}
use xhttp.Session.Value.{CookieValue}
use xhttp.Session.Cookie.{Cookie}
use xhttp.Session.Codec.{Codec, sealed}
use xhttp.Session.RoundTrip.{IsCodec, overlaid}

-- An encoding without colons: "x" for a colon, "y" and the character itself for any other.
abbrev colon : Char
colon = char_at ":" 0

escaped : Bool → Char → String → String
escaped true c s = String.◌∷◌ (char_at "x" 0) s
escaped false c s = String.◌∷◌ (char_at "y" 0) (String.◌∷◌ c s)

encode64 : String → String
unfolding escaped
encode64 String.[] = ""
encode64 (String.◌∷◌ c s) = escaped (nat_eq (code c) b':') c (encode64 s)

abbrev cons_some : Char → Option String → Option String
cons_some c none = none
cons_some c (some s) = some (String.◌∷◌ c s)

-- The flag tells that the next character stands for itself.
decode_from : Bool → String → Option String
decode_from false String.[] = some ""
decode_from true String.[] = none
decode_from true (String.◌∷◌ c s) = cons_some c (decode_from false s)
decode_from false (String.◌∷◌ c s) =
    let skipped = decode_from false s in
    let taken = decode_from true s in
    if nat_eq (code c) b'x' then cons_some colon skipped else taken

decode-escaped :
    (b : Bool) (c : Char) (s t : String)
    → nat_eq (code c) b':' ≡ b
    → decode_from false t ≡ some s
    → decode_from false (escaped b c t) ≡ some (String.◌∷◌ c s)
unfolding decode_from escaped
decode-escaped true c s t e h =
    let same : c ≡ colon = Char-path c colon ((nat_eq_iff (code c) b':').0 e) in
    ap (cons_some colon) h ∙ ap (λ d. some (String.◌∷◌ d s)) (sym same)
decode-escaped false c s t e h = ap (cons_some c) h

decode-encode64 : (s : String) → decode_from false (encode64 s) ≡ some s
unfolding decode_from encode64
decode-encode64 String.[] = refl
decode-encode64 (String.◌∷◌ c s) =
    decode-escaped (nat_eq (code c) b':') c s (encode64 s) refl (decode-encode64 s)

Lacks-escaped :
    (b : Bool) (c : Char) (t : String)
    → nat_eq (code c) b':' ≡ b
    → Lacks b':' t
    → Lacks b':' (escaped b c t)
unfolding escaped
Lacks-escaped true c t e h = (ground arith, h)
Lacks-escaped false c t e h = (ground arith, (ground (arith, nat_eq_iff (code c) b':'), h))

Lacks-encode64 : (s : String) → Lacks b':' (encode64 s)
unfolding encode64
Lacks-encode64 String.[] = tt
Lacks-encode64 (String.◌∷◌ c s) =
    Lacks-escaped (nat_eq (code c) b':') c (encode64 s) refl (Lacks-encode64 s)

-- The maps that can be written: the empty one, and one with a single entry "id" without expiry.
marshal_entry : Bool → CookieValue → Option ℤ → Option String
marshal_entry true v none = some (String.◌∷◌ (char_at "i" 0) v.value)
marshal_entry _ v _ = none

marshal : Dict CookieValue → Option String
unfolding marshal_entry
marshal [] = some ""
marshal ((key, v) ∷ []) = marshal_entry (key == "id") v v.expiry
marshal _ = none

unmarshal : String → Dict CookieValue → Dict CookieValue × Bool
unmarshal String.[] m = (m, true)
unmarshal (String.◌∷◌ c s) m = (insert "id" (record { value = s; expiry = none }) m, true)

unfoldable pub toy_codec : Codec
unfolding marshal unmarshal encode64 decode_from
toy_codec = record {
  marshal = marshal;
  unmarshal = unmarshal;
  hmac = λ message secret. secret ++ message;
  encode64 = encode64;
  decode64 = decode_from false;
  cookie_text = λ k. k.name ++ "=" ++ k.value;
}

overlaid-insert :
    (key : String) (v : CookieValue) (old : Dict CookieValue) (k : String)
    → lookup k (insert key v old) ≡ overlaid k ((key, v) ∷ []) old
unfolding lookup
overlaid-insert key v old k = lookup-insert key k v old ∙ by_key (key == k)
  where
    by_key :
        (b : Bool)
        → (if b then some v else lookup k old)
          ≡ elim (if b then some v else none) [ none ↦ lookup k old | some w ↦ some w ]
    by_key true = refl
    by_key false = refl

Reads : Dict CookieValue → Dict CookieValue → String → Type 0
Reads m old text =
    ((unmarshal text old).1 ≡ true)
    × ((k : String) → lookup k (unmarshal text old).0 ≡ overlaid k m old)

Reads-entry :
    (key : String) (v : CookieValue) (old : Dict CookieValue)
    → key ≡ "id"
    → v.expiry ≡ none
    → Reads ((key, v) ∷ []) old (String.◌∷◌ (char_at "i" 0) v.value)
unfolding Reads unmarshal
Reads-entry key v old at_id forever = (
  refl,
  λ k.
      ap (λ w. lookup k (insert "id" w old))
        (ap (λ o. record { value = v.value; expiry = o }) (sym forever))
      ∙ ap (λ j. lookup k (insert j v old)) (sym at_id)
      ∙ overlaid-insert key v old k,
)

Reads-marshal_entry :
    (b : Bool) (key : String) (v : CookieValue) (o : Option ℤ) (old : Dict CookieValue)
    (text : String)
    → (key == "id") ≡ b
    → v.expiry ≡ o
    → marshal_entry b v o ≡ some text
    → Reads ((key, v) ∷ []) old text
unfolding marshal_entry
Reads-marshal_entry true key v none old text at_id forever e =
    subst (Reads ((key, v) ∷ []) old) (some_inj.0 e)
      (Reads-entry key v old ((eq_iff key "id").0 at_id) forever)
Reads-marshal_entry true key v (some t) old text at_id o e = absurd (cc)
Reads-marshal_entry false key v o old text at_id forever e = absurd (cc)

Reads-marshal :
    (m old : Dict CookieValue) (text : String) → marshal m ≡ some text → Reads m old text
unfolding marshal lookup
Reads-marshal [] old text e =
    subst (Reads [] old) (some_inj.0 e) (unfold Reads unmarshal in (refl, λ k. refl))
Reads-marshal ((key, v) ∷ []) old text e =
    Reads-marshal_entry (key == "id") key v v.expiry old text refl refl e
Reads-marshal (a ∷ b ∷ m) old text e = absurd (cc)

-- Every text of the examples is valid.
abbrev pub valid : String → Bool
valid s = true

pub toy_codec-IsCodec : IsCodec toy_codec valid
unfolding toy_codec Reads
toy_codec-IsCodec = record {
  decode64-encode64 = decode-encode64;
  encode64-Lacks = Lacks-encode64;
  unmarshal-marshal = λ m old text ok. Reads-marshal m old text;
}

-- A cookie that holds only a session id.
abbrev pub visitor : Cookie
visitor = record {
  http_cookie = record {
    name = "s";
    value = "";
    path = "/";
    max_age = pos 0;
    http_only = true;
    secure = true;
  };
  values = ("id", record { value = "v7"; expiry = none }) ∷ [];
  apply_mods = false;
  secret = "k";
  delimiter = char_at ":" 0;
}

-- The same session before it has been read.
abbrev pub newcomer : Cookie
newcomer = record visitor { values = ("old", record { value = "1"; expiry = none }) ∷ [] }

-- The visitor's cookie as Encode sends it.
abbrev pub sent_cookie : HttpCookie
sent_cookie = record visitor.http_cookie { value = sealed toy_codec visitor "iv7" }
