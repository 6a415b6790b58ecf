-- ===== src/Resolve/Listed.antt =====
-- Where the hashes that a bot lists come from: a query of the bot, or an entry of the cache that has not
-- expired.
use ai_base.Common.{
  ℕ, ◌<◌, String, ◌≡◌, ◌≢◌, refl, sym, ap, subst, ◌∙◌, ◌+◌, ◌⊎◌, List, [], ◌∷◌, true, Option, none,
  some, ◌===◌, keep, includes, ltb, arith, inl, inr, Bool-cases, Option-cases, ===→≡, ===-false→≢,
}
use ai_base.Resolve.{World}
use ai_base.Resolve.Visibility.{
  CacheEntry, cache_ttl, cached, drop_entry, listed_hashes, refresh_hashes,
  read_we_com_visible_user_id_hashes,
}

some-injective : {A : Type 0} {a b : A} → some a ≡ some b → a ≡ b
some-injective h = cc

module _ (world : World) (now : ℕ) (cache : List CacheEntry) where
  -- The bot lists the hashes now, or the cache has them in an entry that has not expired.
  pub IsListing : String → List String → Type 0
  IsListing name hashes =
      (listed_hashes world name ≡ some hashes)
      ⊎ ((entry : CacheEntry) × (cached name cache ≡ some entry)
          × (now < entry.expires_at)
          × (entry.user_id_hashes ≡ hashes))

  -- The hash is in such a list.
  abbrev pub IsListed : String → String → Type 0
  IsListed name hash =
      (hashes : List String) × IsListing name hashes × (includes hashes hash ≡ true)

  -- Every entry of a later cache that has not expired is one of the bot's lists.
  pub IsLater : List CacheEntry → Type 0
  IsLater later =
      (name : String) (entry : CacheEntry)
      → cached name later ≡ some entry
      → ltb now entry.expires_at ≡ true
      → IsListing name entry.user_id_hashes

  pub cache-IsLater : IsLater cache
  unfolding IsLater IsListing
  cache-IsLater name entry e h = inr (entry, e, ground arith, refl)

  cached-drop_self :
      (name : String) (entries : List CacheEntry) → cached name (drop_entry name entries) ≡ none
  unfolding cached drop_entry keep
  cached-drop_self name [] = refl
  cached-drop_self name (entry ∷ entries) = elim (Bool-cases (entry.connection_name === name)) [
    | inl same ↦ rw same (cached-drop_self name entries)
    | inr other ↦ rw (other, other) (cached-drop_self name entries)
  ]

  cached-drop_other :
      (name dropped : String) (entries : List CacheEntry)
      → name ≢ dropped
      → cached name (drop_entry dropped entries) ≡ cached name entries
  unfolding cached drop_entry keep
  cached-drop_other name dropped [] apart = refl
  cached-drop_other name dropped (entry ∷ entries) apart =
      elim (Bool-cases (entry.connection_name === dropped)) [
        | inl same ↦ elim (Bool-cases (entry.connection_name === name)) [
          | inl here ↦ absurd (apart (sym (===→≡ _ _ here) ∙ ===→≡ _ _ same))
          | inr away ↦ rw (same, away) (cached-drop_other name dropped entries apart)
        ]
        | inr kept ↦ elim (Bool-cases (entry.connection_name === name)) [
          | inl here ↦ rw (kept, here) refl
          | inr away ↦ rw (kept, away) (cached-drop_other name dropped entries apart)
        ]
      ]

  drop-IsLater :
      (dropped : String) (later : List CacheEntry)
      → IsLater later
      → IsLater (drop_entry dropped later)
  unfolding IsLater
  drop-IsLater dropped later old name entry e h = elim (Bool-cases (name === dropped)) [
    | inl same ↦
        let gone : cached dropped (drop_entry dropped later) ≡ some entry =
          rw (===→≡ name dropped same) at e in
        let none_there = cached-drop_self dropped later in cc
    | inr other ↦
        old name entry (sym (cached-drop_other name dropped later (===-false→≢ _ _ other)) ∙ e) h
  ]

  listed-IsListing :
      (name : String) (hashes : List String)
      → listed_hashes world name ≡ some hashes
      → IsListing name hashes
  unfolding IsListing
  listed-IsListing name hashes e = inl e

  added-IsLater :
      (name : String) (found : List String) (later : List CacheEntry)
      → listed_hashes world name ≡ some found
      → IsLater later
      → IsLater (
          record { connection_name = name; expires_at = now + cache_ttl; user_id_hashes = found }
          ∷ drop_entry name later)
  unfolding IsLater cached
  added-IsLater name found later e old name' entry c h = elim (Bool-cases (name === name')) [
    | inl same ↦
        let first = some-injective (rw same at c) in
        subst (IsListing name') (ap (λ x. x.user_id_hashes) first)
          (listed-IsListing name' found (rw (===→≡ name name' same) at e))
    | inr other ↦ drop-IsLater name later old name' entry (rw other at c) h
  ]

  -- The hashes that are read are of the bot's lists, and so is the cache after it.
  abbrev pub IsRead : String → Option (List String) × List CacheEntry → Type 0
  IsRead name read =
      ((hashes : List String) → read.0 ≡ some hashes → IsListing name hashes) × IsLater read.1

  refresh-IsRead :
      (later : List CacheEntry) (name : String)
      → IsLater later
      → IsRead name (refresh_hashes world now later name)
  unfolding refresh_hashes
  refresh-IsRead later name old = elim (Option-cases (listed_hashes world name)) [
    | inl n ↦ rw (refresh_hashes, n) (λ hashes e. cc, drop-IsLater name later old)
    | inr (found, e) ↦
        rw (refresh_hashes, e)
          (
            λ hashes same. listed-IsListing name hashes (e ∙ same),
            added-IsLater name found later e old,
          )
  ]

  pub read_we_com_visible_user_id_hashes-IsRead :
      (later : List CacheEntry) (name : String)
      → IsLater later
      → IsRead name (read_we_com_visible_user_id_hashes world now later name)
  unfolding read_we_com_visible_user_id_hashes IsLater
  read_we_com_visible_user_id_hashes-IsRead later name old =
      elim (Option-cases (cached name later)) [
        | inl n ↦ rw (read_we_com_visible_user_id_hashes, n) (refresh-IsRead later name old)
        | inr (entry, e) ↦ elim (Bool-cases (ltb now entry.expires_at)) [
          | inl fresh ↦
              rw (read_we_com_visible_user_id_hashes, e, fresh)
                (
                  λ hashes same.
                      subst (IsListing name) (some-injective same) (old name entry e fresh),
                  old,
                )
          | inr late ↦
              rw (read_we_com_visible_user_id_hashes, e, late) (refresh-IsRead later name old)
        ]
      ]
