-- ===== src/Writer/Delegation/Load.antt =====
-- Delegations and revocations from files (internal/plugins/aip2p/delegation.go:
-- `ValidateWriterDelegation`, `ValidateWriterRevocation`, `LoadDelegationStore` and what they call).
-- `read_*` is reading a file and unmarshalling it, `verify_*` is `ed25519.Verify` of the marshalled
-- fields, and the paths are what `jsonFilesInDir` lists.
pub mod Signed
use ai_p2p.Prelude.{
  ℕ, Bool, true, false, not, ◌&&◌, ◌||◌, List, [], ◌∷◌, if◌then◌else◌, is_nil, Option, none, some,
}
use ai_p2p.Prelude.Results.{Result, ok, err, ◌>>=◌, ◌>>◌, require}
use ai_p2p.Text.{Text, codes, text_eq}
use ai_p2p.Writer.Hex.{decode_hex_key}
use ai_p2p.Writer.Delegation.{
  WriterDelegation, WriterRevocation, DelegationStore, normalize_delegation, normalize_revocation,
}

pub record UnsignedWriterDelegation : Type 0 where
  pub kind : Text
  pub version : Text
  pub parent_agent_id : Text
  pub parent_key_type : Text
  pub parent_public_key : Text
  pub child_agent_id : Text
  pub child_key_type : Text
  pub child_public_key : Text
  pub scopes : List Text
  pub created_at : Text
  pub expires_at : Text

pub record UnsignedWriterRevocation : Type 0 where
  pub kind : Text
  pub version : Text
  pub parent_agent_id : Text
  pub parent_key_type : Text
  pub parent_public_key : Text
  pub child_agent_id : Text
  pub child_key_type : Text
  pub child_public_key : Text
  pub reason : Text
  pub created_at : Text

-- The value that `WriterDelegation.payloadBytes` encodes.
unfoldable pub delegation_payload : WriterDelegation → UnsignedWriterDelegation
delegation_payload raw =
    let d = normalize_delegation raw in
    record {
      kind = d.kind;
      version = d.version;
      parent_agent_id = d.parent_agent_id;
      parent_key_type = d.parent_key_type;
      parent_public_key = d.parent_public_key;
      child_agent_id = d.child_agent_id;
      child_key_type = d.child_key_type;
      child_public_key = d.child_public_key;
      scopes = d.scopes;
      created_at = d.created_at;
      expires_at = d.expires_at;
    }

-- The value that `WriterRevocation.payloadBytes` encodes.
unfoldable pub revocation_payload : WriterRevocation → UnsignedWriterRevocation
revocation_payload raw =
    let r = normalize_revocation raw in
    record {
      kind = r.kind;
      version = r.version;
      parent_agent_id = r.parent_agent_id;
      parent_key_type = r.parent_key_type;
      parent_public_key = r.parent_public_key;
      child_agent_id = r.child_agent_id;
      child_key_type = r.child_key_type;
      child_public_key = r.child_public_key;
      reason = r.reason;
      created_at = r.created_at;
    }

pub data DelegationError : Type 0 where
  unsupported_kind unsupported_version agent_ids_required unsupported_key_type : DelegationError
  created_at_not_rfc3339 expires_at_not_rfc3339 bad_parent_key bad_child_key : DelegationError
  bad_signature verification_failed unreadable : DelegationError

abbrev pub some_or {ℓ} : {A : Type ℓ} → Option A → DelegationError → Result DelegationError A
some_or (some a) e = ok a
some_or none e = err e

abbrev pub is_some {ℓ} : {A : Type ℓ} → Option A → Bool
is_some none = false
is_some (some a) = true

module _ (parse_time : Text → Option ℕ)
    (verify_delegation : List ℕ → UnsignedWriterDelegation → List ℕ → Bool)
    (verify_revocation : List ℕ → UnsignedWriterRevocation → List ℕ → Bool) where
  -- `ValidateWriterDelegation`.
  unfoldable pub validate_writer_delegation : WriterDelegation → Result DelegationError (Unit {0})
  validate_writer_delegation raw = do
    let d = normalize_delegation raw
    require (text_eq d.kind (codes "writer_delegation")) DelegationError.unsupported_kind
    require (text_eq d.version (codes "aip2p-delegation/0.1")) DelegationError.unsupported_version
    require (not (is_nil d.parent_agent_id || is_nil d.child_agent_id))
        DelegationError.agent_ids_required
    require
        (text_eq d.parent_key_type (codes "ed25519") && text_eq d.child_key_type (codes "ed25519"))
        DelegationError.unsupported_key_type
    require (is_some (parse_time d.created_at)) DelegationError.created_at_not_rfc3339
    require (is_nil d.expires_at || is_some (parse_time d.expires_at))
        DelegationError.expires_at_not_rfc3339
    parent_public_key ←
        some_or (decode_hex_key d.parent_public_key 32) DelegationError.bad_parent_key
    child_public_key ← some_or (decode_hex_key d.child_public_key 32) DelegationError.bad_child_key
    signature ← some_or (decode_hex_key d.signature 64) DelegationError.bad_signature
    require (verify_delegation parent_public_key (delegation_payload d) signature)
        DelegationError.verification_failed
    ok tt

  -- `ValidateWriterRevocation`.
  unfoldable pub validate_writer_revocation : WriterRevocation → Result DelegationError (Unit {0})
  validate_writer_revocation raw = do
    let r = normalize_revocation raw
    require (text_eq r.kind (codes "writer_revocation")) DelegationError.unsupported_kind
    require (text_eq r.version (codes "aip2p-delegation/0.1")) DelegationError.unsupported_version
    require (not (is_nil r.parent_agent_id || is_nil r.child_agent_id))
        DelegationError.agent_ids_required
    require
        (text_eq r.parent_key_type (codes "ed25519") && text_eq r.child_key_type (codes "ed25519"))
        DelegationError.unsupported_key_type
    require (is_some (parse_time r.created_at)) DelegationError.created_at_not_rfc3339
    parent_public_key ←
        some_or (decode_hex_key r.parent_public_key 32) DelegationError.bad_parent_key
    child_public_key ← some_or (decode_hex_key r.child_public_key 32) DelegationError.bad_child_key
    signature ← some_or (decode_hex_key r.signature 64) DelegationError.bad_signature
    require (verify_revocation parent_public_key (revocation_payload r) signature)
        DelegationError.verification_failed
    ok tt

  module _ (read_delegation : Text → Option WriterDelegation)
      (read_revocation : Text → Option WriterRevocation) where
    -- `LoadWriterDelegation`: the delegation as the file has it, once a normalised copy is valid.
    unfoldable pub load_writer_delegation : Text → Result DelegationError WriterDelegation
    load_writer_delegation path = do
      delegation ← some_or (read_delegation path) DelegationError.unreadable
      validate_writer_delegation delegation
      ok delegation

    -- `LoadWriterRevocation`.
    unfoldable pub load_writer_revocation : Text → Result DelegationError WriterRevocation
    load_writer_revocation path = do
      revocation ← some_or (read_revocation path) DelegationError.unreadable
      validate_writer_revocation revocation
      ok revocation

    -- `loadDelegationsFromDir`.
    unfoldable pub load_delegations_from_dir :
        List Text → Result DelegationError (List WriterDelegation)
    load_delegations_from_dir [] = ok []
    load_delegations_from_dir (path ∷ paths) = load_writer_delegation path >>= λ item.
        load_delegations_from_dir paths >>= λ items. ok (item ∷ items)

    -- `loadRevocationsFromDir`.
    unfoldable pub load_revocations_from_dir :
        List Text → Result DelegationError (List WriterRevocation)
    load_revocations_from_dir [] = ok []
    load_revocations_from_dir (path ∷ paths) = load_writer_revocation path >>= λ item.
        load_revocations_from_dir paths >>= λ items. ok (item ∷ items)

    -- `LoadDelegationStore`.
    unfoldable pub load_delegation_store :
        List Text → List Text → Result DelegationError DelegationStore
    load_delegation_store delegation_paths revocation_paths =
        load_delegations_from_dir delegation_paths >>= λ delegations.
        load_revocations_from_dir revocation_paths >>= λ revocations.
        ok (record { delegations = delegations; revocations = revocations })
