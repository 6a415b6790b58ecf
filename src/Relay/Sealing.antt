-- ===== src/Relay/Sealing.antt =====
-- Opening what was sealed.
use text.Mathlib.TextLemmas.{cons-append}
use ai_base.Common.{
  Option, ◌-◌, ◌≤◌, ◌<◌, String, ◌≡◌, refl, [], ◌∷◌, ◌++◌, false, some, arith, ltb, leb, length,
  take-append, drop-append, length-append,
}
use ai_base.Text.{text_length, is_empty, split_dots, all_chars}
use ai_base.Text.Split.{HasNoDot, split_dots-append, split_dots_last}
use ai_base.Json.{Json}
use ai_base.Relay.{Bytes, returned, Platform, ◌>>=◌}
use ai_base.Relay.Tickets.{
  ticket_max_length, relay_shared_key, ticket_of, seal_we_com_relay_payload, unseal, open_parts,
  open_we_com_relay_payload,
}

-- What the platform promises of one sealing: base64url reads back what it wrote and writes no dot, the
-- cipher opens what it sealed, its tag has 16 bytes and its output is not empty, and `JSON.parse` reads
-- back what `JSON.stringify` wrote.
pub record Seals (p : Platform) (key nonce : Bytes) (value : Json) : Type 0 where
  pub nonce_back : p.decode (p.encode nonce) ≡ nonce
  pub nonce_plain : HasNoDot (p.encode nonce)
  pub sealed_back :
      p.decode (
        p.encode (
          (p.encrypt key nonce (p.stringify value)).0
          ++ (p.encrypt key nonce (p.stringify value)).1))
      ≡ (p.encrypt key nonce (p.stringify value)).0 ++ (p.encrypt key nonce (p.stringify value)).1
  pub sealed_plain : HasNoDot (
      p.encode (
        (p.encrypt key nonce (p.stringify value)).0 ++ (p.encrypt key nonce (p.stringify value)).1))
  pub filled : 0 < length (p.encrypt key nonce (p.stringify value)).0
  pub tagged : length (p.encrypt key nonce (p.stringify value)).1 ≡ 16
  pub opens :
      p.decrypt key nonce
        (p.encrypt key nonce (p.stringify value)).0
        (p.encrypt key nonce (p.stringify value)).1
      ≡ some (p.stringify value)
  pub parses : p.parse (p.stringify value) ≡ some value

module _ (p : Platform) (env : Option String) (key nonce : Bytes) where
  -- The sealed bytes fall apart into the cipher's output and the tag.
  unseal-append :
      (body tag : Bytes) (text : String) (value : Json)
      → relay_shared_key p env ≡ returned key
      → length nonce ≡ 12
      → 0 < length body
      → length tag ≡ 16
      → p.decrypt key nonce body tag ≡ some text
      → p.parse text ≡ some value
      → unseal p env nonce (body ++ tag) ≡ some value
  unfolding unseal
  unseal-append body tag text value keyed twelve filled tagged opens parses =
      let start : length (body ++ tag) - 16 ≡ length body = omega (arith, length-append body tag) in
      let long : leb (length (body ++ tag)) 16 ≡ false = ground (arith, length-append body tag) in
      rw
        (
          unseal,
          twelve,
          long,
          keyed,
          start,
          take-append body tag,
          drop-append body tag,
          opens,
          parses,
        )
        refl

  ticket-given : (sealed : Bytes × Bytes) → is_empty (ticket_of p nonce sealed) ≡ false
  unfolding is_empty
  ticket-given sealed = rw cons-append refl

  ticket-split :
      (sealed : Bytes × Bytes)
      → HasNoDot (p.encode nonce)
      → HasNoDot (p.encode (sealed.0 ++ sealed.1))
      → split_dots (ticket_of p nonce sealed)
        ≡ "v1" ∷ p.encode nonce ∷ p.encode (sealed.0 ++ sealed.1) ∷ []
  unfolding all_chars
  ticket-split sealed h k =
      rw
        (split_dots-append "v1" _ refl, split_dots-append (p.encode nonce) _ h, split_dots_last _ k)
        refl

  -- With a key that is configured and a nonce of 12 bytes, opening the ticket that sealing a value gives
  -- returns that value, if the ticket is at most 16,384 code units long and the platform keeps its
  -- promises.
  pub open_we_com_relay_payload-seal_we_com_relay_payload :
      (value : Json)
      → relay_shared_key p env ≡ returned key
      → length nonce ≡ 12
      → Seals p key nonce value
      → text_length (ticket_of p nonce (p.encrypt key nonce (p.stringify value)))
        ≤ ticket_max_length
      → (seal_we_com_relay_payload p env value nonce >>= open_we_com_relay_payload p env)
        ≡ returned value
  unfolding seal_we_com_relay_payload open_we_com_relay_payload open_parts
  open_we_com_relay_payload-seal_we_com_relay_payload value keyed twelve seals short =
      let sealed = p.encrypt key nonce (p.stringify value) in
      let fits : ltb ticket_max_length (text_length (ticket_of p nonce sealed)) ≡ false =
        ground arith in
      let opened =
        unseal-append sealed.0 sealed.1 (p.stringify value) value keyed twelve seals.filled
          seals.tagged seals.opens seals.parses in
      rw
        (
          seal_we_com_relay_payload,
          keyed,
          open_we_com_relay_payload,
          ticket-given sealed,
          fits,
          ticket-split sealed seals.nonce_plain seals.sealed_plain,
          open_parts,
          seals.nonce_back,
          seals.sealed_back,
          opened,
        )
        refl
