-- ===== src/Relay/Tests.antt =====
-- A ticket of a small platform, and the theorems about it there.
use ai_base.Common.{
  ℕ, zero, suc, String, ◌≡◌, refl, [], ◌∷◌, Option, some, false, ◌==◌, ◌===◌, length, if◌then◌else◌,
  any, includes, take, drop, arith,
}
use ai_base.Text.{
  is_space, trim_start, trim_end, trim, text_length, is_empty, all_chars, split_dots, strip_equals,
}
use ai_base.Json.{Json, Fields, int, str, obj, end, field, get_field, keys}
use ai_base.Url.{Url}
use ai_base.Relay.{Bytes, returned, Platform, exchanged, ◌>>=◌}
use ai_base.Relay.Tickets.{
  is_secret, is_callback, is_current, is_version, has_foreign_key, has_secret, is_handoff,
  handoff_callback, relay_shared_key, seal_we_com_relay_payload, unseal, open_parts,
  open_we_com_relay_payload, Endpoints, relay_endpoints, handoff_of,
  read_we_com_relay_result_handoff, create_we_com_relay_result_consumer_proof,
}
use ai_base.Relay.Sealing.{Seals, open_we_com_relay_payload-seal_we_com_relay_payload}
use ai_base.Relay.Identity.{
  WeComRelayIdentityResult, identity_of, read_identity, identity_response, is_blank_identity,
  accept_identity, respond, conclude, exchange, consume_we_com_relay_identity,
}
use ai_base.Relay.Accepted.{
  IsAcceptedHandoff, AreEndpoints, read_we_com_relay_result_handoff-IsAcceptedHandoff,
}
use ai_base.Relay.Consumed.{IsIdentity, Answered, consume_we_com_relay_identity-IsIdentity}

abbrev zeros : ℕ → Bytes
zeros zero = []
zeros (suc n) = 0 ∷ zeros n

abbrev result_id : String
result_id = "abcdefghijklmnopqrstuvwxyzABCDEFGHIJKLMNOPQ"

abbrev payload : Json
payload = obj (
    field "v" (int 1) (
      field "result_id" (str result_id) (
        field "relay_callback_url" (str "https://relay.example.com/callbacks/wecom")
          (field "issued_at" (int 1000) (field "expires_at" (int 1300) end)))))

abbrev identity : Json
identity =
    obj (field "corp_id" (str "corp") (field "user_id" (str "user") (field "error" (str "") end)))

abbrev relay_url : Url
relay_url = record {
  protocol = "https:";
  username = "";
  password = "";
  hostname = "relay.example.com";
  port = "";
  pathname = "/callbacks/wecom";
  search = "";
  hash = "";
  origin = "https://relay.example.com";
}

-- The key has 32 bytes, a nonce 12, a sealed text 17; there is one text.
abbrev platform : Platform
platform = record {
  url = record {
    parse = λ text. some relay_url;
    with_pathname = λ url path. record url { pathname = path };
    is_ip = λ host. false;
    parse_from = λ text base. some relay_url;
    print = λ url. "https://relay.example.com/callbacks/wecom";
  };
  decode =
      λ text. if text === "key" then zeros 32 else if text === "nonce" then zeros 12 else zeros 17;
  encode = λ bytes.
      if length bytes == 32 then "key" else if length bytes == 12 then "nonce" else "sealed";
  encrypt = λ key nonce text. (zeros 1, zeros 16);
  decrypt = λ key nonce body tag. some "payload";
  hmac = λ key texts. zeros 32;
  stringify = λ value. "payload";
  parse = λ text. some payload;
  fetch = λ url proof body. exchanged 200 (some identity);
}

abbrev env : Option String
env = some "key"

keyed : relay_shared_key platform env ≡ returned (zeros 32)
unfolding relay_shared_key is_space trim_start trim_end trim strip_equals is_empty
keyed = refl

sealing : Seals platform (zeros 32) (zeros 12) payload
unfolding all_chars
sealing = record {
  nonce_back = refl;
  nonce_plain = refl;
  sealed_back = refl;
  sealed_plain = refl;
  filled = omega arith;
  tagged = refl;
  opens = refl;
  parses = refl;
}

open_we_com_relay_payload-seal_we_com_relay_payload_example :
    (seal_we_com_relay_payload platform env payload (zeros 12)
      >>= open_we_com_relay_payload platform env)
    ≡ returned payload
unfolding text_length
open_we_com_relay_payload-seal_we_com_relay_payload_example =
    open_we_com_relay_payload-seal_we_com_relay_payload platform env (zeros 32) (zeros 12) payload
      keyed refl sealing (omega arith)

opened : open_we_com_relay_payload platform env "v1.nonce.sealed" ≡ returned payload
unfolding open_we_com_relay_payload open_parts unseal split_dots is_empty text_length take drop
    relay_shared_key is_space trim_start trim_end trim strip_equals
opened = refl

handed :
    read_we_com_relay_result_handoff platform env "v1.nonce.sealed" 1100
    ≡ returned "https://relay.example.com/callbacks/wecom"
unfolding read_we_com_relay_result_handoff handoff_of handoff_callback is_handoff is_current
    is_version has_foreign_key has_secret is_secret is_callback relay_endpoints any includes keys
    get_field is_empty all_chars text_length
handed = rw opened refl

read_we_com_relay_result_handoff-IsAcceptedHandoff_example :
    (fields : Fields) × (open_we_com_relay_payload platform env "v1.nonce.sealed"
      ≡ returned (obj fields))
    × IsAcceptedHandoff 1100 fields
    × ((given : String) × (e : Endpoints) × AreEndpoints platform given e
        × ("https://relay.example.com/callbacks/wecom" ≡ e.callback))
read_we_com_relay_result_handoff-IsAcceptedHandoff_example =
    read_we_com_relay_result_handoff-IsAcceptedHandoff platform env "v1.nonce.sealed" 1100
      "https://relay.example.com/callbacks/wecom" handed

abbrev consumed : WeComRelayIdentityResult
consumed = record {
  corp_id = "corp";
  user_id = "user";
  relay_issuer = "https://relay.example.com/wecom";
}

consumes : consume_we_com_relay_identity platform env "v1.nonce.sealed" 1100 ≡ returned consumed
unfolding consume_we_com_relay_identity relay_endpoints is_callback is_empty conclude exchange
    create_we_com_relay_result_consumer_proof respond identity_response read_identity identity_of
    has_foreign_key any includes keys get_field accept_identity is_blank_identity is_space
    trim_start trim_end trim text_length
consumes = rw (handed, keyed) refl

consume_we_com_relay_identity-IsIdentity_example :
    IsIdentity consumed
    × ((callback : String) × (e : Endpoints) × (read_we_com_relay_result_handoff platform env
            "v1.nonce.sealed" 1100
          ≡ returned callback)
        × AreEndpoints platform callback e
        × (consumed.relay_issuer ≡ e.issuer)
        × Answered consumed (
            exchange
              (platform.fetch e.result)
              "v1.nonce.sealed"
              (create_we_com_relay_result_consumer_proof platform env "v1.nonce.sealed")))
consume_we_com_relay_identity-IsIdentity_example =
    consume_we_com_relay_identity-IsIdentity platform env "v1.nonce.sealed" 1100 consumed consumes
