-- ===== src/Writer/Modes/Laws.antt =====
-- Lemmas on the functions that normalise the string types of writer_policy.go.
use ai_p2p.Prelude.{Bool, true, false, ◌≡◌, refl, arith}
use ai_p2p.Text.{Text}
use ai_p2p.Text.Laws.{fold_key_idem}
use ai_p2p.Writer.Modes.{
  WriterCapability, WriterSyncMode, WriterTrustMode, RelayTrust, normalize_fold_key,
  normalize_writer_capability, normalize_writer_sync_mode, normalize_writer_trust_mode,
  normalize_relay_trust,
}

pub normalize_fold_key_idem :
    (value : Text) → normalize_fold_key (normalize_fold_key value) ≡ normalize_fold_key value
unfolding normalize_fold_key
normalize_fold_key_idem value = fold_key_idem value

-- The declared constants.
abbrev pub is_capability : WriterCapability → Bool
is_capability (WriterCapability.other value) = false
is_capability _ = true

abbrev pub IsCapability : WriterCapability → Type 0
IsCapability value = is_capability value ≡ true

abbrev pub is_sync_mode : WriterSyncMode → Bool
is_sync_mode (WriterSyncMode.other value) = false
is_sync_mode _ = true

abbrev pub IsSyncMode : WriterSyncMode → Type 0
IsSyncMode value = is_sync_mode value ≡ true

abbrev pub is_trust_mode : WriterTrustMode → Bool
is_trust_mode (WriterTrustMode.other value) = false
is_trust_mode _ = true

abbrev pub IsTrustMode : WriterTrustMode → Type 0
IsTrustMode value = is_trust_mode value ≡ true

abbrev pub is_relay_trust : RelayTrust → Bool
is_relay_trust (RelayTrust.other value) = false
is_relay_trust _ = true

abbrev pub IsRelayTrust : RelayTrust → Type 0
IsRelayTrust value = is_relay_trust value ≡ true

pub normalize_writer_capability-IsCapability :
    (value fallback : WriterCapability)
    → IsCapability fallback
    → IsCapability (normalize_writer_capability value fallback)
unfolding normalize_writer_capability
normalize_writer_capability-IsCapability value fallback h = ground arith

pub normalize_writer_capability_fixed :
    (value fallback : WriterCapability)
    → IsCapability value
    → normalize_writer_capability value fallback ≡ value
unfolding normalize_writer_capability
normalize_writer_capability_fixed WriterCapability.read_write fallback h = refl
normalize_writer_capability_fixed WriterCapability.read_only fallback h = refl
normalize_writer_capability_fixed WriterCapability.blocked fallback h = refl
normalize_writer_capability_fixed (WriterCapability.other value) fallback h = cc

pub normalize_writer_sync_mode-IsSyncMode :
    (value fallback : WriterSyncMode)
    → IsSyncMode fallback
    → IsSyncMode (normalize_writer_sync_mode value fallback)
unfolding normalize_writer_sync_mode
normalize_writer_sync_mode-IsSyncMode value fallback h = ground arith

pub normalize_writer_sync_mode_fixed :
    (value fallback : WriterSyncMode)
    → IsSyncMode value
    → normalize_writer_sync_mode value fallback ≡ value
unfolding normalize_writer_sync_mode
normalize_writer_sync_mode_fixed WriterSyncMode.mixed fallback h = refl
normalize_writer_sync_mode_fixed WriterSyncMode.all fallback h = refl
normalize_writer_sync_mode_fixed WriterSyncMode.trusted_writers_only fallback h = refl
normalize_writer_sync_mode_fixed WriterSyncMode.whitelist fallback h = refl
normalize_writer_sync_mode_fixed WriterSyncMode.blacklist fallback h = refl
normalize_writer_sync_mode_fixed (WriterSyncMode.other value) fallback h = cc

pub normalize_writer_trust_mode-IsTrustMode :
    (value fallback : WriterTrustMode)
    → IsTrustMode fallback
    → IsTrustMode (normalize_writer_trust_mode value fallback)
unfolding normalize_writer_trust_mode
normalize_writer_trust_mode-IsTrustMode value fallback h = ground arith

pub normalize_writer_trust_mode_fixed :
    (value fallback : WriterTrustMode)
    → IsTrustMode value
    → normalize_writer_trust_mode value fallback ≡ value
unfolding normalize_writer_trust_mode
normalize_writer_trust_mode_fixed WriterTrustMode.exact fallback h = refl
normalize_writer_trust_mode_fixed WriterTrustMode.parent_and_children fallback h = refl
normalize_writer_trust_mode_fixed (WriterTrustMode.other value) fallback h = cc

pub normalize_relay_trust-IsRelayTrust :
    (value fallback : RelayTrust)
    → IsRelayTrust fallback
    → IsRelayTrust (normalize_relay_trust value fallback)
unfolding normalize_relay_trust
normalize_relay_trust-IsRelayTrust value fallback h = ground arith

pub normalize_relay_trust_fixed :
    (value fallback : RelayTrust)
    → IsRelayTrust value
    → normalize_relay_trust value fallback ≡ value
unfolding normalize_relay_trust
normalize_relay_trust_fixed RelayTrust.neutral fallback h = refl
normalize_relay_trust_fixed RelayTrust.trusted fallback h = refl
normalize_relay_trust_fixed RelayTrust.blocked fallback h = refl
normalize_relay_trust_fixed (RelayTrust.other value) fallback h = cc
