-- ===== src/Gateway/Keys/Previous.antt =====
-- What `readGatewayChannels` gives a save: the flag of an id tells whether its key is there.
use ai_base.Common.{
  String, ◌≡◌, refl, ap, List, [], ◌∷◌, map, true, false, none, arith, eq_iff, inl, inr, Bool-cases,
  includes,
}
use ai_base.Common.Results.{ok}
use ai_base.Gateway.Types.{Snapshot, StoredGatewayChannel, GatewayChannel}
use ai_base.Gateway.Store.{Secrets, secret, FileOf, missing, broken, holding, Store}
use ai_base.Gateway.Managed.{is_some}
use ai_base.Gateway.Keys.{
  read_file, with_key, with_keys, channels_in, read_gateway_channels, last_channel, had_key,
}

abbrev pub entries_in : FileOf (Snapshot StoredGatewayChannel) → List StoredGatewayChannel
entries_in missing = []
entries_in broken = []
entries_in (holding snapshot) = snapshot.entries

abbrev pub stored_ids : Store → List String
stored_ids s = map (λ c. c.id) (entries_in s.channels)

-- No key without a stored channel.
pub record IsTidy (s : Store) : Type 0 where
  pub no_orphan : (id : String) → includes (stored_ids s) id ≡ false → secret s.secrets id ≡ none

channels_in-entries :
    (file : FileOf (Snapshot StoredGatewayChannel)) (secrets : Secrets)
    (previous : Snapshot GatewayChannel)
    → channels_in file secrets ≡ ok previous
    → previous.entries ≡ map (with_key secrets) (entries_in file)
unfolding channels_in read_file with_keys
channels_in-entries missing secrets previous h = ground arith
channels_in-entries broken secrets previous h = cc
channels_in-entries (holding snapshot) secrets previous h = ground arith

pub read-entries :
    (s : Store) (previous : Snapshot GatewayChannel)
    → read_gateway_channels s ≡ ok previous
    → previous.entries ≡ map (with_key s.secrets) (entries_in s.channels)
unfolding read_gateway_channels
read-entries s previous h = channels_in-entries s.channels s.secrets previous h

pub with_key-ids :
    (secrets : Secrets) (cs : List StoredGatewayChannel)
    → map (λ (c : GatewayChannel). c.stored.id) (map (with_key secrets) cs) ≡ map (λ c. c.id) cs
unfolding with_key
with_key-ids secrets [] = refl
with_key-ids secrets (c ∷ cs) = ap (λ l. c.id ∷ l) (with_key-ids secrets cs)

module _ (secrets : Secrets) (id : String) where
  last_channel-absent :
      (cs : List StoredGatewayChannel)
      → includes (map (λ c. c.id) cs) id ≡ false
      → last_channel (map (with_key secrets) cs) id ≡ none
  unfolding last_channel includes with_key
  last_channel-absent [] h = refl
  last_channel-absent (c ∷ cs) h = ground (arith, last_channel-absent cs)

  last_channel-present :
      (cs : List StoredGatewayChannel)
      → includes (map (λ c. c.id) cs) id ≡ true
      → had_key (last_channel (map (with_key secrets) cs) id) ≡ is_some (secret secrets id)
  unfolding last_channel includes with_key had_key
  last_channel-present [] h = cc
  last_channel-present (c ∷ cs) h = elim (Bool-cases (includes (map (λ c. c.id) cs) id)) [
    | inl later ↦ ground (arith, last_channel-present cs later, eq_iff c.id id)
    | inr here ↦ rw (last_channel-absent cs here) (ground (arith, eq_iff c.id id))
  ]

-- In a tidy store the flag that a save reads for an id tells whether the key of that id is there.
pub had_key-tidy :
    (s : Store) (previous : Snapshot GatewayChannel) (id : String)
    → IsTidy s
    → read_gateway_channels s ≡ ok previous
    → had_key (last_channel previous.entries id) ≡ is_some (secret s.secrets id)
unfolding had_key
had_key-tidy s previous id tidy h =
    rw (read-entries s previous h) (elim (Bool-cases (includes (stored_ids s) id)) [
      | inl known ↦ last_channel-present s.secrets id (entries_in s.channels) known
      | inr new ↦
          rw (last_channel-absent s.secrets id (entries_in s.channels) new)
            (rw (tidy.no_orphan id new))
    ])
