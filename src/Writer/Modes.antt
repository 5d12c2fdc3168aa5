-- ===== src/Writer/Modes.antt =====
-- The string types of writer_policy.go and writer_registry.go. A constructor is a declared constant,
-- and `other` is any other string of that type.
pub mod Laws
use ai_p2p.Prelude.{ℕ, Bool, true, false, ◌≡◌, refl, if◌then◌else◌}
use ai_p2p.Text.{Text, codes, text_eq, trim_space, to_lower}

pub data WriterCapability : Type 0 where
  read_write read_only blocked : WriterCapability
  other : Text → WriterCapability

pub data WriterSyncMode : Type 0 where
  mixed all trusted_writers_only whitelist blacklist : WriterSyncMode
  other : Text → WriterSyncMode

pub data WriterTrustMode : Type 0 where
  exact parent_and_children : WriterTrustMode
  other : Text → WriterTrustMode

pub data RelayTrust : Type 0 where
  neutral trusted blocked : RelayTrust
  other : Text → RelayTrust

-- `normalizeFoldKey`, and each `strings.ToLower(strings.TrimSpace(value))`.
unfoldable pub normalize_fold_key : Text → Text
unfolding to_lower trim_space
normalize_fold_key value = to_lower (trim_space value)

capability_string : WriterCapability → Text
capability_string WriterCapability.read_write = codes "read_write"
capability_string WriterCapability.read_only = codes "read_only"
capability_string WriterCapability.blocked = codes "blocked"
capability_string (WriterCapability.other value) = value

unfoldable pub normalize_writer_capability : WriterCapability → WriterCapability → WriterCapability
unfolding capability_string normalize_fold_key text_eq
normalize_writer_capability value fallback =
    let key = normalize_fold_key (capability_string value) in
    if text_eq key (codes "read_write")
    then WriterCapability.read_write
    else if text_eq key (codes "read_only")
    then WriterCapability.read_only
    else if text_eq key (codes "blocked")
    then WriterCapability.blocked
    else fallback

sync_mode_string : WriterSyncMode → Text
sync_mode_string WriterSyncMode.mixed = codes "mixed"
sync_mode_string WriterSyncMode.all = codes "all"
sync_mode_string WriterSyncMode.trusted_writers_only = codes "trusted_writers_only"
sync_mode_string WriterSyncMode.whitelist = codes "whitelist"
sync_mode_string WriterSyncMode.blacklist = codes "blacklist"
sync_mode_string (WriterSyncMode.other value) = value

unfoldable pub normalize_writer_sync_mode : WriterSyncMode → WriterSyncMode → WriterSyncMode
unfolding sync_mode_string normalize_fold_key text_eq
normalize_writer_sync_mode value fallback =
    let key = normalize_fold_key (sync_mode_string value) in
    if text_eq key (codes "mixed")
    then WriterSyncMode.mixed
    else if text_eq key (codes "all")
    then WriterSyncMode.all
    else if text_eq key (codes "trusted_writers_only")
    then WriterSyncMode.trusted_writers_only
    else if text_eq key (codes "whitelist")
    then WriterSyncMode.whitelist
    else if text_eq key (codes "blacklist")
    then WriterSyncMode.blacklist
    else fallback

trust_mode_string : WriterTrustMode → Text
trust_mode_string WriterTrustMode.exact = codes "exact"
trust_mode_string WriterTrustMode.parent_and_children = codes "parent_and_children"
trust_mode_string (WriterTrustMode.other value) = value

unfoldable pub normalize_writer_trust_mode : WriterTrustMode → WriterTrustMode → WriterTrustMode
unfolding trust_mode_string normalize_fold_key text_eq
normalize_writer_trust_mode value fallback =
    let key = normalize_fold_key (trust_mode_string value) in
    if text_eq key (codes "exact")
    then WriterTrustMode.exact
    else if text_eq key (codes "parent_and_children")
    then WriterTrustMode.parent_and_children
    else fallback

relay_trust_string : RelayTrust → Text
relay_trust_string RelayTrust.neutral = codes "neutral"
relay_trust_string RelayTrust.trusted = codes "trusted"
relay_trust_string RelayTrust.blocked = codes "blocked"
relay_trust_string (RelayTrust.other value) = value

unfoldable pub normalize_relay_trust : RelayTrust → RelayTrust → RelayTrust
unfolding relay_trust_string normalize_fold_key text_eq
normalize_relay_trust value fallback =
    let key = normalize_fold_key (relay_trust_string value) in
    if text_eq key (codes "neutral")
    then RelayTrust.neutral
    else if text_eq key (codes "trusted")
    then RelayTrust.trusted
    else if text_eq key (codes "blocked")
    then RelayTrust.blocked
    else fallback
