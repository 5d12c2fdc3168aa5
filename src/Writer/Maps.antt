-- ===== src/Writer/Maps.antt =====
-- The maps of a policy: the loops of writer_policy.go and writer_registry.go that normalise their
-- keys and values, and those that merge the maps of shared registries.
pub mod Laws
use ai_p2p.Prelude.{Bool, true, false, [], ◌||◌, if◌then◌else◌, is_nil, Option, none, some}
use ai_p2p.Text.{Text, trim_space, to_lower}
use ai_p2p.TextMap.{TextMap, rebuild}
use ai_p2p.Writer.Modes.{
  WriterCapability, RelayTrust, normalize_fold_key, normalize_writer_capability,
  normalize_relay_trust,
}

unfoldable pub capability_entry : Bool → Text → WriterCapability → Option (Text × WriterCapability)
capability_entry hex_keys raw capability =
    let key = if hex_keys then to_lower (trim_space raw) else normalize_fold_key raw in
    if is_nil key
    then none
    else some (key, normalize_writer_capability capability WriterCapability.read_write)

unfoldable pub normalize_capability_map : TextMap WriterCapability → Bool → TextMap WriterCapability
unfolding capability_entry rebuild
normalize_capability_map items hex_keys = rebuild (capability_entry hex_keys) [] items

relay_entry : Bool → Text → RelayTrust → Option (Text × RelayTrust)
relay_entry fold_keys raw trust =
    let key = if fold_keys then normalize_fold_key raw else trim_space raw in
    if is_nil key then none else some (key, normalize_relay_trust trust RelayTrust.neutral)

unfoldable pub normalize_relay_trust_map : TextMap RelayTrust → Bool → TextMap RelayTrust
unfolding relay_entry rebuild
normalize_relay_trust_map items fold_keys = rebuild (relay_entry fold_keys) [] items

key_entry : Text → Text → Option (Text × Text)
key_entry raw raw_value =
    let key = normalize_fold_key raw in
    let value = to_lower (trim_space raw_value) in
    if is_nil key || is_nil value then none else some (key, value)

unfoldable pub normalize_public_key_map : TextMap Text → TextMap Text
unfolding key_entry rebuild
normalize_public_key_map items = rebuild key_entry [] items

abbrev copy_entry {ℓ} : {V : Type ℓ} → Text → V → Option (Text × V)
copy_entry key value = some (key, value)

-- `mergeRegistryCapabilities` and `mergeRegistryRelayTrust`: the entries of `src` replace those of
-- `dst`.
unfoldable pub merge_registry_capabilities :
    TextMap WriterCapability → TextMap WriterCapability → TextMap WriterCapability
unfolding rebuild
merge_registry_capabilities dst src = rebuild copy_entry dst src

unfoldable pub merge_registry_relay_trust :
    TextMap RelayTrust → TextMap RelayTrust → TextMap RelayTrust
unfolding rebuild
merge_registry_relay_trust dst src = rebuild copy_entry dst src
