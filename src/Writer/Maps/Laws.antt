-- ===== src/Writer/Maps/Laws.antt =====
-- Lemmas on the loops of writer_policy.go and writer_registry.go that rebuild and merge maps.
use ai_p2p.Prelude.{Bool, [], ◌∷◌, ◌≡◌, refl, Option, none, some, arith, All}
use ai_p2p.Text.{Text, trim_space, to_lower}
use ai_p2p.Text.Laws.{text_eq_iff, trim_space_idem}
use ai_p2p.TextMap.{TextMap, lookup, insert, rebuild}
use ai_p2p.TextMap.Laws.{lookup-insert, IsDistinct, insert-All}
use ai_p2p.TextMap.Rebuild.{rebuild_idem, rebuild_fixed, rebuild-All, rebuild-IsDistinct, All-fresh}
use ai_p2p.Writer.Modes.{
  WriterCapability, RelayTrust, normalize_fold_key, normalize_writer_capability,
  normalize_relay_trust,
}
use ai_p2p.Writer.Modes.Laws.{
  normalize_fold_key_idem, normalize_writer_capability-IsCapability,
  normalize_writer_capability_fixed, normalize_relay_trust-IsRelayTrust,
  normalize_relay_trust_fixed,
}
use ai_p2p.Writer.Maps.{
  capability_entry, normalize_capability_map, relay_entry, normalize_relay_trust_map, key_entry,
  normalize_public_key_map, copy_entry, merge_registry_capabilities, merge_registry_relay_trust,
}

capability_twice :
    (v : WriterCapability)
    → normalize_writer_capability
        (normalize_writer_capability v WriterCapability.read_write)
        WriterCapability.read_write
      ≡ normalize_writer_capability v WriterCapability.read_write
capability_twice v =
    normalize_writer_capability_fixed _ WriterCapability.read_write
      (normalize_writer_capability-IsCapability v WriterCapability.read_write refl)

relay_twice :
    (v : RelayTrust)
    → normalize_relay_trust (normalize_relay_trust v RelayTrust.neutral) RelayTrust.neutral
      ≡ normalize_relay_trust v RelayTrust.neutral
relay_twice v =
    normalize_relay_trust_fixed _ RelayTrust.neutral
      (normalize_relay_trust-IsRelayTrust v RelayTrust.neutral refl)

fold_key_lem : (k : Text) → to_lower (trim_space k) ≡ normalize_fold_key k
unfolding normalize_fold_key
fold_key_lem k = refl

capability_entry_stable :
    (hex_keys : Bool) (k : Text) (v : WriterCapability) (k' : Text) (w : WriterCapability)
    → capability_entry hex_keys k v ≡ some (k', w)
    → capability_entry hex_keys k' w ≡ some (k', w)
unfolding capability_entry
capability_entry_stable hex_keys k v k' w h =
    ground (arith, fold_key_lem k, fold_key_lem k', normalize_fold_key_idem k, capability_twice v)

pub normalize_capability_map_idem :
    (items : TextMap WriterCapability) (hex_keys : Bool)
    → normalize_capability_map (normalize_capability_map items hex_keys) hex_keys
      ≡ normalize_capability_map items hex_keys
unfolding normalize_capability_map
normalize_capability_map_idem items hex_keys =
    rebuild_idem (capability_entry hex_keys) (capability_entry_stable hex_keys) items

relay_entry_stable :
    (fold_keys : Bool) (k : Text) (v : RelayTrust) (k' : Text) (w : RelayTrust)
    → relay_entry fold_keys k v ≡ some (k', w)
    → relay_entry fold_keys k' w ≡ some (k', w)
unfolding relay_entry
relay_entry_stable fold_keys k v k' w h =
    ground (arith, normalize_fold_key_idem k, trim_space_idem k, relay_twice v)

pub normalize_relay_trust_map_idem :
    (items : TextMap RelayTrust) (fold_keys : Bool)
    → normalize_relay_trust_map (normalize_relay_trust_map items fold_keys) fold_keys
      ≡ normalize_relay_trust_map items fold_keys
unfolding normalize_relay_trust_map
normalize_relay_trust_map_idem items fold_keys =
    rebuild_idem (relay_entry fold_keys) (relay_entry_stable fold_keys) items

key_entry_stable : (k v k' w : Text) → key_entry k v ≡ some (k', w) → key_entry k' w ≡ some (k', w)
unfolding key_entry
key_entry_stable k v k' w h =
    ground
      (arith, normalize_fold_key_idem k, normalize_fold_key_idem v, fold_key_lem v, fold_key_lem w)

pub normalize_public_key_map_idem :
    (items : TextMap Text)
    → normalize_public_key_map (normalize_public_key_map items) ≡ normalize_public_key_map items
unfolding normalize_public_key_map
normalize_public_key_map_idem items = rebuild_idem key_entry key_entry_stable items

-- `src` first, then `dst`.
abbrev pub or_else {ℓ} : {A : Type ℓ} → Option A → Option A → Option A
or_else (some a) o = some a
or_else none o = o

lookup-merge {ℓ} :
    {V : Type ℓ} (k : Text) (dst src : TextMap V)
    → IsDistinct src
    → lookup k (rebuild copy_entry dst src) ≡ or_else (lookup k src) (lookup k dst)
unfolding rebuild lookup
lookup-merge k dst [] d = refl
lookup-merge k dst ((j, v) ∷ src) (fresh, d) =
    ground (arith, lookup-merge k (insert j v dst) src d, lookup-insert j k v dst, text_eq_iff j k)

-- Merging a map of distinct keys into another one: a key has its entry of the merged map, and its
-- old entry where that has none.
pub lookup-merge_registry_capabilities :
    (k : Text) (dst src : TextMap WriterCapability)
    → IsDistinct src
    → lookup k (merge_registry_capabilities dst src) ≡ or_else (lookup k src) (lookup k dst)
unfolding merge_registry_capabilities
lookup-merge_registry_capabilities k dst src d = lookup-merge k dst src d

pub lookup-merge_registry_relay_trust :
    (k : Text) (dst src : TextMap RelayTrust)
    → IsDistinct src
    → lookup k (merge_registry_relay_trust dst src) ≡ or_else (lookup k src) (lookup k dst)
unfolding merge_registry_relay_trust
lookup-merge_registry_relay_trust k dst src d = lookup-merge k dst src d

-- A capability map in its normal form: every entry stays as it is, and no key stands twice.
pub record IsNormal (hex_keys : Bool) (items : TextMap WriterCapability) : Type 0 where
  pub fixed : All (λ e. capability_entry hex_keys e.0 e.1 ≡ some e) items
  pub distinct : IsDistinct items

pub normalize_capability_map-IsNormal :
    (items : TextMap WriterCapability) (hex_keys : Bool)
    → IsNormal hex_keys (normalize_capability_map items hex_keys)
unfolding normalize_capability_map
normalize_capability_map-IsNormal items hex_keys = record {
  fixed =
      rebuild-All (capability_entry hex_keys) (λ k v. capability_entry hex_keys k v ≡ some (k, v))
        (capability_entry_stable hex_keys) [] items tt;
  distinct = rebuild-IsDistinct (capability_entry hex_keys) [] items tt;
}

pub normalize_capability_map_of_IsNormal :
    (items : TextMap WriterCapability) (hex_keys : Bool)
    → IsNormal hex_keys items
    → normalize_capability_map items hex_keys ≡ items
unfolding normalize_capability_map
normalize_capability_map_of_IsNormal items hex_keys n =
    rebuild_fixed (capability_entry hex_keys) [] items n.fixed n.distinct
      (All-fresh (capability_entry hex_keys) items)

copy-All {ℓ κ} :
    {V : Type ℓ} (P : Text → V → Type κ) (dst src : TextMap V)
    → All (λ e. P e.0 e.1) dst
    → All (λ e. P e.0 e.1) src
    → All (λ e. P e.0 e.1) (rebuild copy_entry dst src)
unfolding rebuild
copy-All P dst [] hd hs = hd
copy-All P dst ((k, v) ∷ src) hd hs =
    copy-All P (insert k v dst) src (insert-All P k v dst hs.0 hd) hs.1

pub merge_registry_capabilities-IsNormal :
    (hex_keys : Bool) (dst src : TextMap WriterCapability)
    → IsNormal hex_keys dst
    → IsNormal hex_keys src
    → IsNormal hex_keys (merge_registry_capabilities dst src)
unfolding merge_registry_capabilities
merge_registry_capabilities-IsNormal hex_keys dst src nd ns = record {
  fixed = copy-All (λ k v. capability_entry hex_keys k v ≡ some (k, v)) dst src nd.fixed ns.fixed;
  distinct = rebuild-IsDistinct copy_entry dst src nd.distinct;
}
