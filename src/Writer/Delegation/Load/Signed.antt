-- ===== src/Writer/Delegation/Load/Signed.antt =====
-- Delegations of a store that `LoadDelegationStore` read (internal/plugins/aip2p/delegation.go).
use ai_p2p.Prelude.{
  ℕ, Bool, true, false, List, [], ◌∷◌, ◌≡◌, ap, ◌≢◌, some_of_ne_none, is_nil, Option, none, some,
  arith, All, All-mem, map, Option-cases, inl, inr,
}
use ai_p2p.Prelude.Results.{Result, ok, err, >>=-eq-ok, eq_of_ok}
use ai_p2p.Text.{Text}
use ai_p2p.Writer.Hex.{decode_hex_key}
use ai_p2p.Writer.Delegation.{
  WriterDelegation, WriterRevocation, DelegationStore, normalize_delegation, active_delegation_for,
}
use ai_p2p.Writer.Delegation.Active.{active_delegation_for-IsActive}
use ai_p2p.Writer.Delegation.Load.{
  UnsignedWriterDelegation, UnsignedWriterRevocation, DelegationError, delegation_payload,
  validate_writer_delegation, load_writer_delegation, load_delegations_from_dir,
  load_revocations_from_dir, load_delegation_store,
}

module _ (parse_time : Text → Option ℕ)
    (verify_delegation : List ℕ → UnsignedWriterDelegation → List ℕ → Bool)
    (verify_revocation : List ℕ → UnsignedWriterRevocation → List ℕ → Bool) where
  -- A delegation with a signature of its fields by the key of the parent that it names.
  pub record IsSigned (d : WriterDelegation) : Type 0 where
    pub parent : is_nil d.parent_agent_id ≡ false
    pub child : is_nil d.child_agent_id ≡ false
    pub key : List ℕ
    pub key_bytes : decode_hex_key d.parent_public_key 32 ≡ some key
    pub signature : List ℕ
    pub signature_bytes : decode_hex_key d.signature 64 ≡ some signature
    pub verified : verify_delegation key (delegation_payload d) signature ≡ true

  module _ (raw : WriterDelegation)
      (h : validate_writer_delegation parse_time verify_delegation verify_revocation raw
        ≡ ok tt) where
    key_decodes : decode_hex_key (normalize_delegation raw).parent_public_key 32 ≢ none
    unfolding validate_writer_delegation
    key_decodes e = ground arith

    signature_decodes : decode_hex_key (normalize_delegation raw).signature 64 ≢ none
    unfolding validate_writer_delegation
    signature_decodes e = ground arith

    validate-IsSigned : IsSigned (normalize_delegation raw)
    unfolding validate_writer_delegation
    validate-IsSigned =
        let (key, key_bytes) = some_of_ne_none _ key_decodes in
        let (signature, signature_bytes) = some_of_ne_none _ signature_decodes in
        record {
          parent = ground arith;
          child = ground arith;
          key = key;
          key_bytes = key_bytes;
          signature = signature;
          signature_bytes = signature_bytes;
          verified = ground arith;
        }

  module _ (read_delegation : Text → Option WriterDelegation)
      (read_revocation : Text → Option WriterRevocation) where
    load_writer_delegation-IsSigned :
        (path : Text) (d : WriterDelegation)
        → load_writer_delegation parse_time verify_delegation verify_revocation read_delegation
            read_revocation path
          ≡ ok d
        → IsSigned (normalize_delegation d)
    unfolding load_writer_delegation
    load_writer_delegation-IsSigned path d h = elim (Option-cases (read_delegation path)) [
      | inl e ↦
          let failed : ◌≡◌ {A = Result DelegationError WriterDelegation}
              (err DelegationError.unreadable) (ok d) =
            rw e at h in
          cc
      | inr (raw, e) ↦
          let (u, valid, same) =
            >>=-eq-ok
              (validate_writer_delegation parse_time verify_delegation verify_revocation raw)
              (λ u. ok raw) (rw e at h) in
          rw (← eq_of_ok DelegationError same) (validate-IsSigned raw valid)
    ]

    load_delegations_from_dir-IsSigned :
        (paths : List Text) (ds : List WriterDelegation)
        → load_delegations_from_dir parse_time verify_delegation verify_revocation read_delegation
            read_revocation paths
          ≡ ok ds
        → All IsSigned (map normalize_delegation ds)
    unfolding load_delegations_from_dir
    load_delegations_from_dir-IsSigned [] ds h = rw (← eq_of_ok DelegationError h) tt
    load_delegations_from_dir-IsSigned (path ∷ paths) ds h =
        let (d, read, h1) =
          >>=-eq-ok
            (load_writer_delegation parse_time verify_delegation verify_revocation read_delegation
              read_revocation path)
            _ h in
        let (rest, read_rest, h2) =
          >>=-eq-ok
            (load_delegations_from_dir parse_time verify_delegation verify_revocation
              read_delegation read_revocation paths)
            _ h1 in
        rw (← eq_of_ok DelegationError h2) (
          load_writer_delegation-IsSigned path d read,
          load_delegations_from_dir-IsSigned paths rest read_rest,
        )

    -- If a store is loaded from files without an error and a delegation is found in force in it,
    -- then the delegation names its parent and its child and carries a signature of its fields
    -- that verifies under the key of the parent that it names.
    pub active_delegation_for-IsSigned :
        (delegation_paths revocation_paths : List Text) (store : DelegationStore) (clock : ℕ)
        (agent key scope : Text) (now : ℕ) (d : WriterDelegation)
        → load_delegation_store parse_time verify_delegation verify_revocation read_delegation
            read_revocation delegation_paths revocation_paths
          ≡ ok store
        → active_delegation_for parse_time clock store agent key scope now ≡ some d
        → IsSigned d
    unfolding load_delegation_store
    active_delegation_for-IsSigned delegation_paths revocation_paths store clock agent key scope now
          d loaded h =
        let (ds, read, h1) =
          >>=-eq-ok
            (load_delegations_from_dir parse_time verify_delegation verify_revocation
              read_delegation read_revocation delegation_paths)
            _ loaded in
        let (rs, _, h2) =
          >>=-eq-ok
            (load_revocations_from_dir parse_time verify_delegation verify_revocation
              read_delegation read_revocation revocation_paths)
            _ h1 in
        let (_, member, _) =
          active_delegation_for-IsActive parse_time clock store agent key scope now d h in
        let same : ds ≡ store.delegations =
          ap (λ (s : DelegationStore). s.delegations) (eq_of_ok DelegationError h2) in
        let all_signed : All IsSigned (map normalize_delegation store.delegations) =
          rw (← same) (load_delegations_from_dir-IsSigned delegation_paths ds read) in
        All-mem IsSigned _ d all_signed member
