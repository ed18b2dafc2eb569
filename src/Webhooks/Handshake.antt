-- ===== src/Webhooks/Handshake.antt =====
-- packages/server/src/domain/webhook-emitter.ts: the handshake with the receiver, and the signature
-- of what is sent.
use mathlib.Core.Option
use text.Mathlib.TextLemmas.{nil-append, cons-append}
use Prim.Native.String.{String, [] as []ˢ, ◌∷◌ as ◌∷ˢ◌, ◌++◌ as ◌++ˢ◌}
use whaloc.Base.{
  ℕ, Bool, true, false, not, ◌&&◌, Option, none, some, ◌≡◌, refl, ap, ◌∙◌, ◌==◌, leb, is_some, ◌↔◌,
  behind, all_chars, text_length, eq_refl, get, arith, Option-cases, inl, inr, eq_iff,
}
use whaloc.Webhooks.Signature.{
  signature_header, signature_prefix, hex_digest_length, is_hex, meta_signature_header,
  is_valid_meta_signature,
}
use whaloc.Webhooks.{WebhookTarget, Answer, replied, broken, headers}

-- `HandshakeResult`
pub record HandshakeResult : Type 0 where
  pub ok : Bool
  pub url : String
  pub status : Option ℕ
  pub challenge : String
  pub echo : Option String
  pub error : Option String
  pub at : String

abbrev handshake_failure : String → String → String → String → HandshakeResult
handshake_failure url challenge error now = record {
  ok = false;
  url = url;
  status = none;
  challenge = challenge;
  echo = none;
  error = some error;
  at = now;
}

-- `response.ok`
abbrev is_ok : ℕ → Bool
is_ok status = leb 200 status && leb status 299

abbrev echo_error : Bool → Option String
echo_error true = none
echo_error false = some "the receiver did not echo the challenge"

-- `#verify`; the echo is what comes back, cut at 1024 characters
abbrev verified : String → String → String → Answer → HandshakeResult
verified url challenge now (broken error) = handshake_failure url challenge error now
verified url challenge now (replied status echo) =
    let is_echoed = is_ok status && echo == challenge in
    record {
      ok = is_echoed;
      url = url;
      status = some status;
      challenge = challenge;
      echo = some echo;
      error = echo_error is_echoed;
      at = now;
    }

abbrev shaken :
    Option String → Option String → String → String → (String → String → Answer) → HandshakeResult
shaken none token challenge now ask =
    handshake_failure "" challenge "WHALOC_WEBHOOK_URL is not set" now
shaken (some url) none challenge now ask =
    handshake_failure url challenge "WHALOC_WEBHOOK_VERIFY_TOKEN is not set" now
shaken (some url) (some token) challenge now ask = verified url challenge now (ask token challenge)

-- the result, which becomes `#lastHandshake` too; `ask` is the GET with a token and a challenge
unfoldable pub handshake :
    WebhookTarget → String → String → (String → String → Answer) → HandshakeResult
handshake target challenge now ask = shaken target.url target.verify_token challenge now ask

-- what a receiver has to do, in words of its own
pub record Passes (target : WebhookTarget) (challenge : String) (ask : String → String → Answer)
    : Type 0 where
  pub token : String
  pub status : ℕ
  pub configured : is_some target.url ≡ true
  pub known : target.verify_token ≡ some token
  pub echoed : ask token challenge ≡ replied status challenge
  pub success : is_ok status ≡ true

verified-Passes :
    (url token challenge now : String) (ask : String → String → Answer) (a : Answer)
    (target : WebhookTarget)
    → ask token challenge ≡ a
    → target.url ≡ some url
    → target.verify_token ≡ some token
    → (verified url challenge now a).ok ≡ true
    → Passes target challenge ask
verified-Passes url token challenge now ask (broken error) target asked set known ok =
    absurd (ground (arith, ok))
verified-Passes url token challenge now ask (replied status echo) target asked set known ok =
    record {
      token = token;
      status = status;
      configured = ap is_some set;
      known = known;
      echoed = asked ∙ ap (replied status) (ground (arith, ok, eq_iff echo challenge));
      success = ground (arith, ok);
    }

ok-handshake :
    (target : WebhookTarget) (challenge now : String) (ask : String → String → Answer)
    → (handshake target challenge now ask).ok ≡ true
    → Passes target challenge ask
unfolding handshake
ok-handshake target challenge now ask ok = elim (Option-cases target.url) [
  | inl unset ↦ absurd (cc (rw unset at ok))
  | inr (url, set) ↦ elim (Option-cases target.verify_token) [
    | inl unknown ↦ absurd (cc (rw (set, unknown) at ok))
    | inr (token, known) ↦
        verified-Passes url token challenge now ask (ask token challenge) target refl set known
          (rw (set, known) at ok)
  ]
]

Passes-ok :
    (target : WebhookTarget) (challenge now : String) (ask : String → String → Answer)
    → Passes target challenge ask
    → (handshake target challenge now ask).ok ≡ true
unfolding handshake
Passes-ok target challenge now ask p = elim (Option-cases target.url) [
  | inl unset ↦ absurd (cc (rw unset at p.configured))
  | inr (url, set) ↦ rw (set, p.known, p.echoed, p.success, eq_refl challenge) refl
]

verified-error :
    (url challenge now : String) (a : Answer)
    → is_some (verified url challenge now a).error ≡ not (verified url challenge now a).ok
verified-error url challenge now (broken error) = refl
verified-error url challenge now (replied status echo) = ground arith

shaken-error :
    (url token : Option String) (challenge now : String) (ask : String → String → Answer)
    → is_some (shaken url token challenge now ask).error
      ≡ not (shaken url token challenge now ask).ok
shaken-error none token challenge now ask = refl
shaken-error (some url) none challenge now ask = refl
shaken-error (some url) (some token) challenge now ask =
    verified-error url challenge now (ask token challenge)

-- A handshake is well exactly when a URL and a token are set and the receiver answers the token and
-- the challenge with a success and the challenge itself; otherwise, and only then, it has an error.
pub handshake-Passes :
    (target : WebhookTarget) (challenge now : String) (ask : String → String → Answer)
    → (((handshake target challenge now ask).ok ≡ true) ↔ Passes target challenge ask)
      × (is_some (handshake target challenge now ask).error
          ≡ not (handshake target challenge now ask).ok)
unfolding handshake
handshake-Passes target challenge now ask = (
  (ok-handshake target challenge now ask, Passes-ok target challenge now ask),
  shaken-error target.url target.verify_token challenge now ask,
)

behind-append : (p s : String) → behind p (p ++ˢ s) ≡ some s
behind-append []ˢ s = rw nil-append refl
behind-append (c ∷ˢ p) s = rw cons-append (ground (arith, behind-append p s))

-- Where the digest is 64 characters of lower case hexadecimal, the signature that goes out with a
-- body is valid for that body and the secret of the target.
pub headers-is_valid :
    (hmac : String → String → String) (target : WebhookTarget) (secret body : String)
    → target.app_secret ≡ some secret
    → text_length (hmac secret body) ≡ hex_digest_length
    → all_chars is_hex (hmac secret body) ≡ true
    → Option.map
        (λ value. is_valid_meta_signature hmac value secret body)
        (get signature_header (headers hmac target body))
      ≡ some true
unfolding headers meta_signature_header is_valid_meta_signature get
headers-is_valid hmac target secret body set long hex =
    rw
      (
        set,
        behind-append signature_prefix (hmac secret body),
        long,
        hex,
        eq_refl (hmac secret body),
      )
      refl
