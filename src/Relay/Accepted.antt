-- ===== src/Relay/Accepted.antt =====
-- What holds of a handoff that the relay's functions return.
use ai_base.Common.{
  ℕ, ◌+◌, ◌≤◌, ◌<◌, String, ◌≡◌, ◌≢◌, refl, sym, ap, true, false, Option, some, arith, inl, inr,
  Bool-cases, Option-cases, ===→≡, ◌<>◌,
}
use ai_base.Text.{is_empty}
use ai_base.Json.{Json, Fields, obj, int, negative, get_field, object?, string?}
use ai_base.Url.{Url}
use ai_base.Relay.{returned, relay_error, platform_error, RelayCode, Platform, >>=-returned}
use ai_base.Relay.Tickets.{
  invalid, has_secret, is_current, is_handoff, handoff_callback, handoff_of, is_callback, Endpoints,
  relay_endpoints, open_we_com_relay_payload, read_we_com_relay_result_handoff, has_foreign_key,
  handoff_keys, is_version,
}

-- A URL of the relay's callback: HTTPS, its path and nothing else.
pub record IsCallback (u : Url) : Type 0 where
  pub protocol : u.protocol ≡ "https:"
  pub pathname : u.pathname ≡ "/callbacks/wecom"
  pub username : is_empty u.username ≡ true
  pub password : is_empty u.password ≡ true
  pub search : is_empty u.search ≡ true
  pub hash : is_empty u.hash ≡ true

url-IsCallback : (u : Url) → is_callback u ≡ true → IsCallback u
unfolding is_callback
url-IsCallback u h = record {
  protocol = ===→≡ _ _ (ground arith);
  pathname = ===→≡ _ _ (ground arith);
  username = ground arith;
  password = ground arith;
  search = ground arith;
  hash = ground arith;
}

-- The ticket expires after `now`, at most 330 seconds later.
pub record IsCurrent (now : ℕ) (payload : Fields) : Type 0 where
  pub expires : ℕ
  pub held : get_field payload "expires_at" ≡ some (int expires)
  pub after_now : now < expires
  pub soon : expires ≤ now + 330

-- The endpoints of a relay callback, and the URL that they come from.
pub record AreEndpoints (p : Platform) (text : String) (e : Endpoints) : Type 0 where
  pub url : Url
  pub parsed : p.url.parse text ≡ some url
  pub callback_url : IsCallback url
  pub callback : e.callback ≡ p.url.print url
  pub result :
      (results : Url) × (p.url.parse_from "/api/wecom/results" url.origin ≡ some results)
      × (e.result ≡ p.url.print results)
  pub issuer : e.issuer ≡ url.origin <> "/wecom"

-- What a handoff that is returned satisfies, for the payload that the ticket carries.
pub record IsAcceptedHandoff (now : ℕ) (payload : Fields) : Type 0 where
  pub known : has_foreign_key handoff_keys payload ≡ false
  pub version : get_field payload "v" ≡ some (int 1)
  pub result_id : has_secret (string? (get_field payload "result_id")) ≡ true
  pub current : IsCurrent now payload

current-cases :
    (now : ℕ) (issued expires : Option Json)
    → is_current now issued expires ≡ true
    → (n : ℕ) × (expires ≡ some (int n)) × (now < n) × (n ≤ now + 330)
unfolding is_current
current-cases now (some (int i)) (some (int e)) h = (e, refl, ground arith, ground arith)
current-cases now (some (negative i)) (some (int e)) h = (e, refl, ground arith, ground arith)
current-cases now issued expires h = cc

version-eq : (v : Option Json) → is_version v ≡ true → v ≡ some (int 1)
unfolding is_version
version-eq (some (int n)) h = let e : n ≡ 1 = ground arith in rw e refl
version-eq v h = cc

handoff-IsAcceptedHandoff :
    (now : ℕ) (payload : Fields) → is_handoff now payload ≡ true → IsAcceptedHandoff now payload
unfolding is_handoff
handoff-IsAcceptedHandoff now payload h =
    let (n, held, late, soon) =
      current-cases now (get_field payload "issued_at") (get_field payload "expires_at")
        (ground arith) in
    record {
      known = ground arith;
      version = version-eq _ (ground arith);
      result_id = ground arith;
      current = record { expires = n; held = held; after_now = late; soon = soon };
    }

pub platform-returned : {A : Type 0} (a : A) → platform_error ≢ returned a
platform-returned a h = cc

pub error-returned :
    {A : Type 0} (a : A) {message : String} {code : RelayCode}
    → relay_error message code ≢ returned a
error-returned a h = cc

pub returned-injective : {A : Type 0} {a b : A} → returned a ≡ returned b → a ≡ b
returned-injective h = cc

pub object-eq : (value : Json) (fields : Fields) → object? value ≡ some fields → value ≡ obj fields
object-eq (obj fields) others h = cc
object-eq value others h = cc

module _ (p : Platform) where
  pub endpoints-AreEndpoints :
      (text : String) (e : Endpoints) → relay_endpoints p text ≡ returned e → AreEndpoints p text e
  unfolding relay_endpoints invalid
  endpoints-AreEndpoints text e h = elim (Option-cases (p.url.parse text)) [
    | inl n ↦ absurd (platform-returned _ (rw (relay_endpoints, n) at h))
    | inr (u, parsed) ↦ elim (Bool-cases (is_callback u)) [
      | inr bad ↦ absurd (error-returned _ (rw (relay_endpoints, parsed, bad) at h))
      | inl good ↦ elim (Option-cases (p.url.parse_from "/api/wecom/results" u.origin)) [
        | inl n ↦ absurd (platform-returned _ (rw (relay_endpoints, parsed, good, n) at h))
        | inr (result, made) ↦
            let same = returned-injective (rw (relay_endpoints, parsed, good, made) at h) in
            record {
              url = u;
              parsed = parsed;
              callback_url = url-IsCallback u good;
              callback = ap (λ x. x.callback) (sym same);
              result = (result, made, ap (λ x. x.result) (sym same));
              issuer = ap (λ x. x.issuer) (sym same);
            }
      ]
    ]
  ]

  handoff-parts :
      (now : ℕ) (value : Json) (callback : String)
      → handoff_of p now value ≡ returned callback
      → (payload : Fields) × (value ≡ obj payload)
        × IsAcceptedHandoff now payload
        × ((given : String) × (e : Endpoints) × AreEndpoints p given e × (callback ≡ e.callback))
  unfolding handoff_of handoff_callback invalid
  handoff-parts now value callback h = elim (Option-cases (object? value)) [
    | inl n ↦ absurd (error-returned _ (rw (handoff_of, n) at h))
    | inr (payload, held) ↦ elim (Bool-cases (is_handoff now payload)) [
      | inr bad ↦ absurd (error-returned _ (rw (handoff_of, held, handoff_callback, bad) at h))
      | inl good ↦ elim (Option-cases (string? (get_field payload "relay_callback_url"))) [
        | inl n ↦ absurd (error-returned _ (rw (handoff_of, held, handoff_callback, good, n) at h))
        | inr (given, text) ↦
            let (e, made, same) =
              >>=-returned (relay_endpoints p given) _
                (rw (handoff_of, held, handoff_callback, good, text) at h) in
            (
              payload,
              object-eq value payload held,
              handoff-IsAcceptedHandoff now payload good,
              (given, e, endpoints-AreEndpoints given e made, sym (returned-injective same)),
            )
      ]
    ]
  ]

  -- A ticket whose handoff is returned opens to a payload with the known keys only, version 1, a result
  -- id of 43 characters and an expiry after `now` and at most 330 seconds later, and the callback is that of
  -- an HTTPS URL with the relay's path and without credentials, query or fragment.
  pub read_we_com_relay_result_handoff-IsAcceptedHandoff :
      (env : Option String) (ticket : String) (now : ℕ) (callback : String)
      → read_we_com_relay_result_handoff p env ticket now ≡ returned callback
      → (payload : Fields) × (open_we_com_relay_payload p env ticket ≡ returned (obj payload))
        × IsAcceptedHandoff now payload
        × ((given : String) × (e : Endpoints) × AreEndpoints p given e × (callback ≡ e.callback))
  unfolding read_we_com_relay_result_handoff
  read_we_com_relay_result_handoff-IsAcceptedHandoff env ticket now callback h =
      let (value, opened, rest) =
        >>=-returned (open_we_com_relay_payload p env ticket) (handoff_of p now) h in
      let (payload, same, accepted, ends) = handoff-parts now value callback rest in
      (payload, rw same at opened, accepted, ends)
