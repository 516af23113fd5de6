-- ===== src/Session/RoundTrip.antt =====
-- What Encode and Decode promise of each other.
use Prim.Native.Char.{code}
use Prim.Native.String.{len}
use xhttp.Prelude.{
  ◌≤◌, ◌≡◌, refl, sym, ◌∙◌, ap, String, Bool, true, ◌&&◌, Option, none, some, List, [], ◌∷◌, arith,
  eq_iff, eq_refl,
}
use xhttp.Prelude.Dict.{Dict, lookup}
use xhttp.Prelude.Text.{split, Lacks, split_of_Lacks, split-append}
use xhttp.Context.{HttpCookie}
use xhttp.Session.Value.{CookieValue}
use xhttp.Session.Cookie.{Cookie}
use xhttp.Session.Codec.{
  Codec, encoded, decoded, encode, encode_json, decode, decode_parts, decode_message, checked,
  read_json, verify_signature, sealed, compute_hmac256,
}

-- An entry of `m` hides the one of `old`; the other entries of `old` stay.
abbrev pub overlaid : String → Dict CookieValue → Dict CookieValue → Option CookieValue
overlaid k m old = elim (lookup k m) [ none ↦ lookup k old | some v ↦ some v ]

-- A text of the model stands for a Go string, which need not be UTF-8; `valid` is utf8.ValidString.
-- Every key and every value of the map is valid.
unfoldable pub all_valid : (String → Bool) → Dict CookieValue → Bool
all_valid valid [] = true
all_valid valid ((k, v) ∷ m) = valid k && valid v.value && all_valid valid m

-- What is assumed of base64 and JSON: decoding inverts encoding, base64 has no colon, and reading
-- the text of a map into another map sets the entries that the text has and keeps the others. JSON
-- replaces what is not UTF-8, so that this is assumed for valid keys and values only.
pub record IsCodec (codec : Codec) (valid : String → Bool) : Type 0 where
  pub decode64-encode64 : (s : String) → codec.decode64 (codec.encode64 s) ≡ some s
  pub encode64-Lacks : (s : String) → Lacks b':' (codec.encode64 s)
  pub unmarshal-marshal :
      (m old : Dict CookieValue) (text : String)
      → all_valid valid m ≡ true
      → codec.marshal m ≡ some text
      → ((codec.unmarshal text old).1 ≡ true)
        × ((k : String) → lookup k (codec.unmarshal text old).0 ≡ overlaid k m old)

module _ (codec : Codec) where
  record IsEncoding (c : Cookie) (hc : HttpCookie) : Type 0 where
    jval : String
    marshalled : codec.marshal c.values ≡ some jval
    text : hc.value ≡ sealed codec c jval
    small : len (codec.cookie_text hc) ≤ 4096

  encode_json-IsEncoding :
      (c : Cookie) (hc : HttpCookie) (o : Option String)
      → codec.marshal c.values ≡ o
      → (encode_json codec c o).0 ≡ encoded hc
      → IsEncoding c hc
  unfolding encode_json
  encode_json-IsEncoding c hc none m e = absurd (cc)
  encode_json-IsEncoding c hc (some jval) m e = record {
    jval = jval;
    marshalled = m;
    text = ground arith;
    small = ground arith;
  }

  -- The text of a cookie that Encode accepts is at most 4096 bytes long.
  pub encode-small :
      (c : Cookie) (hc : HttpCookie)
      → (encode codec c).0 ≡ encoded hc
      → len (codec.cookie_text hc) ≤ 4096
  unfolding encode
  encode-small c hc e = (encode_json-IsEncoding c hc _ refl e).small

  -- What Decode has established when it accepts the value of a cookie: the first two parts of the
  -- value are a MAC and a message in base64, and the MAC is the one that the secret gives to this
  -- message; the entries are those that reading the message into the old ones gives.
  pub record IsAuthentic (c c' : Cookie) (value : String) : Type 0 where
    pub mac64 : String
    pub message64 : String
    pub rest : List String
    pub mac : String
    pub message : String
    pub parts : split (code c.delimiter) value ≡ mac64 ∷ message64 ∷ rest
    pub has_mac : codec.decode64 mac64 ≡ some mac
    pub has_message : codec.decode64 message64 ≡ some message
    pub signed : mac ≡ codec.hmac message c.secret
    pub values : c'.values ≡ (codec.unmarshal message c.values).0
    pub secret : c'.secret ≡ c.secret

  abbrev IsSigned : String → String → String → Type 0
  IsSigned mac64 message64 secret =
      (mac message : String) × (codec.decode64 mac64 ≡ some mac)
      × (codec.decode64 message64 ≡ some message)
      × (mac ≡ codec.hmac message secret)

  verify_signature_sound :
      (message64 mac64 secret : String)
      → verify_signature codec message64 mac64 secret ≡ true
      → IsSigned mac64 message64 secret
  unfolding verify_signature
  verify_signature_sound message64 mac64 secret h =
      go (codec.decode64 message64) (codec.decode64 mac64) refl refl h
    where
      go :
          (o p : Option String)
          → codec.decode64 message64 ≡ o
          → codec.decode64 mac64 ≡ p
          → checked codec secret o p ≡ true
          → IsSigned mac64 message64 secret
      go (some message) (some mac) e f t =
          (mac, message, f, e, (eq_iff mac (codec.hmac message secret)).0 t)
      go none p e f t = absurd (cc)
      go (some message) none e f t = absurd (cc)

  decode_message-decoded :
      (c : Cookie) (message : String)
      → (decode_message codec c (some message)).0 ≡ decoded
      → ((decode_message codec c (some message)).1.values ≡ (codec.unmarshal message c.values).0)
        × ((decode_message codec c (some message)).1.secret ≡ c.secret)
  unfolding decode_message read_json
  decode_message-decoded c message e = ground arith

  decode_parts-accepted :
      (c : Cookie) (mac64 message64 : String) (rest : List String)
      → (decode_parts codec c (mac64 ∷ message64 ∷ rest)).0 ≡ decoded
      → (verify_signature codec message64 mac64 c.secret ≡ true)
        × (decode_parts codec c (mac64 ∷ message64 ∷ rest)
            ≡ decode_message codec c (codec.decode64 message64))
  unfolding decode_parts
  decode_parts-accepted c mac64 message64 rest e = ground arith

  decode_parts-signed :
      (c : Cookie) (mac64 message64 : String)
      → verify_signature codec message64 mac64 c.secret ≡ true
      → decode_parts codec c (mac64 ∷ message64 ∷ [])
        ≡ decode_message codec c (codec.decode64 message64)
  unfolding decode_parts
  decode_parts-signed c mac64 message64 ok = rw ok

  decode_message-read :
      (c : Cookie) (message : String)
      → (codec.unmarshal message c.values).1 ≡ true
      → decode_message codec c (some message)
        ≡ (decoded, record c { values = (codec.unmarshal message c.values).0 })
  unfolding decode_message read_json
  decode_message-read c message ok = ground arith

  decode_parts_sound :
      (c : Cookie) (value : String) (ps : List String)
      → split (code c.delimiter) value ≡ ps
      → (decode_parts codec c ps).0 ≡ decoded
      → IsAuthentic c (decode_parts codec c ps).1 value
  decode_parts_sound c value [] s e = absurd (unfold decode_parts in cc)
  decode_parts_sound c value (mac64 ∷ []) s e = absurd (unfold decode_parts in cc)
  decode_parts_sound c value (mac64 ∷ message64 ∷ rest) s e =
      let (ok, same) = decode_parts-accepted c mac64 message64 rest e in
      let (mac, message, has_mac, has_message, signed) =
        verify_signature_sound message64 mac64 c.secret ok in
      let same' : decode_parts codec c (mac64 ∷ message64 ∷ rest)
          ≡ decode_message codec c (some message) =
        same ∙ ap (decode_message codec c) has_message in
      let (values, secret) = decode_message-decoded c message (ap (λ t. t.0) (sym same') ∙ e) in
      record {
        mac64 = mac64;
        message64 = message64;
        rest = rest;
        mac = mac;
        message = message;
        parts = s;
        has_mac = has_mac;
        has_message = has_message;
        signed = signed;
        values = ap (λ t. t.1.values) same' ∙ values;
        secret = ap (λ t. t.1.secret) same' ∙ secret;
      }

  -- Decode accepts no value whose MAC is not the one that the cookie's secret gives to the message:
  -- where it succeeds, the value is authentic and the entries are read from its message.
  pub decode-IsAuthentic :
      (c : Cookie) (h : HttpCookie)
      → (decode codec c h).0 ≡ decoded
      → IsAuthentic c (decode codec c h).1 h.value
  unfolding decode
  decode-IsAuthentic c h e = decode_parts_sound c h.value _ refl e

  module _ (valid : String → Bool) (laws : IsCodec codec valid) where
    split-sealed :
        (c : Cookie) (jval : String)
        → code c.delimiter ≡ b':'
        → split (code c.delimiter) (sealed codec c jval)
          ≡ compute_hmac256 codec jval c.secret ∷ codec.encode64 jval ∷ []
    split-sealed c jval colon =
        split-append c.delimiter (compute_hmac256 codec jval c.secret) (codec.encode64 jval)
          (rw colon (unfold compute_hmac256 in laws.encode64-Lacks _))
        ∙ ap (λ t. compute_hmac256 codec jval c.secret ∷ t)
            (split_of_Lacks (code c.delimiter) (codec.encode64 jval)
              (rw colon (laws.encode64-Lacks jval)))

    verify_signature-sealed :
        (jval secret : String)
        → verify_signature codec (codec.encode64 jval) (compute_hmac256 codec jval secret) secret
          ≡ true
    unfolding verify_signature compute_hmac256
    verify_signature-sealed jval secret =
        rw (laws.decode64-encode64 jval, laws.decode64-encode64 (codec.hmac jval secret), eq_refl)

    -- What Encode writes for one cookie, whose keys and values are valid UTF-8, Decode accepts for
    -- any cookie with the same secret and the colon as delimiter. The entries of the first cookie
    -- are all there afterwards; an entry that only the second one had before stays.
    pub decode-encode :
        (c c' : Cookie) (hc : HttpCookie)
        → c'.secret ≡ c.secret
        → code c.delimiter ≡ b':'
        → c'.delimiter ≡ c.delimiter
        → all_valid valid c.values ≡ true
        → (encode codec c).0 ≡ encoded hc
        → ((decode codec c' hc).0 ≡ decoded)
          × ((k : String) → lookup k (decode codec c' hc).1.values ≡ overlaid k c.values c'.values)
    unfolding encode decode
    decode-encode c c' hc secret colon delimiter text e =
        let n : IsEncoding c hc = encode_json-IsEncoding c hc _ refl e in
        let parts : split (code c'.delimiter) hc.value
            ≡ compute_hmac256 codec n.jval c'.secret ∷ codec.encode64 n.jval ∷ [] =
          rw (delimiter, secret, n.text) (split-sealed c n.jval colon) in
        let (ok, same) = laws.unmarshal-marshal c.values c'.values n.jval text n.marshalled in
        let read : decode codec c' hc
            ≡ (decoded, record c' { values = (codec.unmarshal n.jval c'.values).0 }) =
          ap (decode_parts codec c') parts
          ∙ decode_parts-signed c' (compute_hmac256 codec n.jval c'.secret) (codec.encode64 n.jval)
              (verify_signature-sealed n.jval c'.secret)
          ∙ ap (decode_message codec c') (laws.decode64-encode64 n.jval)
          ∙ decode_message-read c' n.jval ok in
        (ap (λ t. t.0) read, λ k. ap (λ t. lookup k t.1.values) read ∙ same k)
