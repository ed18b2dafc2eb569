-- ===== src/Webhooks/Signature.antt =====
-- packages/server/src/domain/meta-json.ts: the signature of a body. `hmac` is the HMAC-SHA256 of a
-- body under a secret, in lower case hexadecimal.
use Prim.Native.String.{◌++◌}
use whaloc.Base.{
  String, ℕ, Bool, false, ◌&&◌, ◌||◌, Option, none, some, ◌==◌, leb, eqb, is_digit, all_chars,
  text_length, behind,
}

abbrev pub signature_header : String
signature_header = "x-hub-signature-256"

abbrev pub signature_prefix : String
signature_prefix = "sha256="

abbrev pub hex_digest_length : ℕ
hex_digest_length = 64

-- `[\da-f]`
abbrev pub is_hex : ℕ → Bool
is_hex c = is_digit c || (leb b'a' c && leb c b'f')

module _ (hmac : String → String → String) where
  unfoldable pub meta_signature_header : String → String → String
  meta_signature_header secret body = signature_prefix ++ hmac secret body

  -- both digests are lower case hexadecimal, so their bytes are equal where the texts are
  abbrev pub matches : Option String → String → String → Bool
  matches none secret body = false
  matches (some hex) secret body =
      (eqb (text_length hex) hex_digest_length && all_chars is_hex hex) && hex == hmac secret body

  unfoldable pub is_valid_meta_signature : String → String → String → Bool
  is_valid_meta_signature header_value secret body =
      matches (behind signature_prefix header_value) secret body
