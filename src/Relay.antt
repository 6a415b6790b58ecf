-- ===== src/Relay.antt =====
-- ai-console/src/lib/server/wecom-relay.ts: tickets of the WeCom relay, and the identity that a ticket is
-- exchanged for. The ciphers, base64url, `JSON` and `fetch` are the platform's: parameters.
pub mod Tickets
pub mod Identity
pub mod Sealing
pub mod Accepted
pub mod Consumed
mod Tests
use ai_base.Common.{◌≡◌, refl, ℕ, String, List, Bool, Option}
use ai_base.Json.{Json}
use ai_base.Url.{UrlApi}

abbrev pub Bytes : Type 0
Bytes = List ℕ

pub data RelayCode : Type 0 where
  access_denied identity_exchange_failed invalid_relay_result relay_unavailable : RelayCode

-- A return, a `WeComRelayError`, or another error of the platform.
pub data Relayed {ℓ} (A : Type ℓ) : Type ℓ where
  returned : A → Relayed A
  relay_error : String → RelayCode → Relayed A
  platform_error : Relayed A

-- What a `fetch` gives: a rejection, or the status with the body, `none` where it does not parse.
pub data Exchange : Type 0 where
  unreachable : Exchange
  exchanged : ℕ → Option Json → Exchange

pub record Platform : Type 0 where
  pub url : UrlApi
  -- `Buffer.from(text, "base64url")` and `toString("base64url")`
  pub decode : String → Bytes
  pub encode : Bytes → String
  -- AES-256-GCM with the source's additional data: key, nonce and text give the bytes and the tag; key,
  -- nonce, bytes and tag give the text, `none` where `final` throws.
  pub encrypt : Bytes → Bytes → String → Bytes × Bytes
  pub decrypt : Bytes → Bytes → Bytes → Bytes → Option String
  -- HMAC-SHA-256 of the key over the texts, one after the other.
  pub hmac : Bytes → List String → Bytes
  pub stringify : Json → String
  pub parse : String → Option Json
  -- A POST of a JSON body: the URL, the proof header and the body.
  pub fetch : String → String → Json → Exchange

infixl 5 ◌>>=◌
abbrev pub ◌>>=◌ {ℓ ℓ'} : {S : Type ℓ} {R : Type ℓ'} → Relayed S → (S → Relayed R) → Relayed R
platform_error >>= next = platform_error
relay_error message code >>= next = relay_error message code
returned value >>= next = next value

-- A return comes from a return of the first part.
pub >>=-returned {ℓ ℓ'} :
    {S : Type ℓ} {R : Type ℓ'} (first : Relayed S) (next : S → Relayed R) {end : R}
    → (first >>= next) ≡ returned end
    → (value : S) × (first ≡ returned value) × (next value ≡ returned end)
>>=-returned platform_error next h = cc
>>=-returned (relay_error message code) next h = cc
>>=-returned (returned value) next h = (value, refl, h)
