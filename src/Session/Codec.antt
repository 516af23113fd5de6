-- ===== src/Session/Codec.antt =====
-- handlers/session/sessioncookie.go: Encode and Decode; session.go: ComputeHmac256 and
-- VerifySignature. JSON, base64 and HMAC are a parameter. A text stands for a Go string, whose bytes
-- need not be UTF-8.
use Prim.Native.Char.{code}
use Prim.Native.String.{◌++◌, len}
use xhttp.Prelude.{
  String, Bool, true, false, Option, none, some, List, ◌∷◌, length, ltb, not, if◌then◌else◌, ◌==◌,
}
use xhttp.Prelude.Dict.{Dict}
use xhttp.Prelude.Text.{split}
use xhttp.Context.{HttpCookie}
use xhttp.Session.Value.{CookieValue}
use xhttp.Session.Cookie.{Cookie}

-- `marshal` is json.Marshal of the map; `unmarshal text m` is json.Unmarshal into the map `m`, the
-- map afterwards with whether it succeeded; `hmac message secret` is the raw HMAC-SHA256 of the
-- message; `cookie_text` is http.Cookie's method String.
pub record Codec : Type 0 where
  pub marshal : Dict CookieValue → Option String
  pub unmarshal : String → Dict CookieValue → Dict CookieValue × Bool
  pub hmac : String → String → String
  pub encode64 : String → String
  pub decode64 : String → Option String
  pub cookie_text : HttpCookie → String

pub data Encoded : Type 0 where
  encoded : HttpCookie → Encoded
  unserializable too_big : Encoded

pub data Decoded : Type 0 where
  decoded tampered bad_signature undecodable unreadable : Decoded

module _ (codec : Codec) where
  open codec use {marshal, unmarshal, hmac, encode64, decode64, cookie_text}

  -- session.go: ComputeHmac256
  unfoldable pub compute_hmac256 : String → String → String
  compute_hmac256 message secret = encode64 (hmac message secret)

  abbrev pub checked : String → Option String → Option String → Bool
  checked secret (some message) (some mac) = mac == hmac message secret
  checked secret _ _ = false

  -- session.go: VerifySignature. It is false too where one of the texts is no base64; its error
  -- tells the two apart, and Decode only wraps it.
  unfoldable pub verify_signature : String → String → String → Bool
  verify_signature message64 mac64 secret = checked secret (decode64 message64) (decode64 mac64)

  -- The cookie's value: the MAC, the delimiter and the JSON text, both in base64.
  abbrev pub sealed : Cookie → String → String
  sealed c jval = compute_hmac256 jval c.secret ++ String.◌∷◌ c.delimiter (encode64 jval)

  abbrev pub with_value : Cookie → String → HttpCookie
  with_value c v = record c.http_cookie { value = v }

  unfoldable pub encode_json : Cookie → Option String → Encoded × Cookie
  encode_json c none = (unserializable, c)
  encode_json c (some jval) =
      let hc = with_value c (sealed c jval) in
      if ltb 4096 (len (cookie_text hc))
      then (too_big, record c { http_cookie = hc })
      else (encoded hc, record c { http_cookie = hc; apply_mods = true })

  -- Cookie.Encode
  unfoldable pub encode : Cookie → Encoded × Cookie
  unfolding encode_json compute_hmac256
  encode c = encode_json c (marshal c.values)

  unfoldable pub read_json : Cookie → Dict CookieValue × Bool → Decoded × Cookie
  read_json c (m, true) = (decoded, record c { values = m })
  read_json c (m, false) = (unreadable, record c { values = m })

  unfoldable pub decode_message : Cookie → Option String → Decoded × Cookie
  decode_message c none = (undecodable, c)
  decode_message c (some text) = read_json c (unmarshal text c.values)

  unfoldable pub decode_parts : Cookie → List String → Decoded × Cookie
  decode_parts c (mac64 ∷ message64 ∷ rest) =
      if ltb 4000 (length (mac64 ∷ message64 ∷ rest))
      then (tampered, c)
      else if not (verify_signature message64 mac64 c.secret)
      then (bad_signature, c)
      else decode_message c (decode64 message64)
  decode_parts c _ = (tampered, c)

  -- Cookie.Decode
  unfoldable pub decode : Cookie → HttpCookie → Decoded × Cookie
  unfolding decode_parts decode_message read_json verify_signature
  decode c h = decode_parts c (split (code c.delimiter) h.value)
