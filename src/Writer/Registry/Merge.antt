-- ===== src/Writer/Registry/Merge.antt =====
-- `loadSharedRegistries` (internal/plugins/aip2p/writer_policy.go).
use ai_p2p.Prelude.{
  ℕ, Bool, true, false, List, [], ◌∷◌, ◌++◌, ◌≡◌, refl, sym, ap, ◌∙◌, is_nil, Option, some,
  Bool-cases, inl, inr, Option-cases,
}
use ai_p2p.Prelude.Results.{ok, >>=-eq-ok, eq_of_ok}
use ai_p2p.Text.{Text, text_eq, trim_space, to_lower}
use ai_p2p.TextMap.{TextMap, lookup}
use ai_p2p.Writer.Modes.{
  WriterCapability, WriterTrustMode, normalize_writer_trust_mode, normalize_fold_key,
}
use ai_p2p.Writer.Policy.{WriterPolicy, normalize}
use ai_p2p.Writer.Lists.{unique_fold, normalize_hex_list}
use ai_p2p.Writer.Lists.Laws.{unique_fold_idem, normalize_hex_list_idem}
use ai_p2p.Writer.Maps.Laws.{
  IsNormal, normalize_capability_map-IsNormal, normalize_capability_map_of_IsNormal,
  merge_registry_capabilities-IsNormal, lookup-merge_registry_capabilities, or_else,
}
use mathlib.Core.Path.{subst}
use ai_p2p.Writer.Registry.{
  SignedWriterRegistry, UnsignedWriterRegistry, RegistryError, normalize_registry, validate,
  load_source, merge_registry, load_registries, merge_local, merge_start, load_shared_registries,
}

unset_trust_mode :
    normalize_writer_trust_mode (WriterTrustMode.other []) WriterTrustMode.exact
    ≡ WriterTrustMode.exact
unfolding normalize_writer_trust_mode normalize_fold_key text_eq trim_space to_lower
unset_trust_mode = refl

module _ (parse_time : Text → Option ℕ) (verify : List ℕ → UnsignedWriterRegistry → List ℕ → Bool)
    (fetch : Text → Option SignedWriterRegistry) where
  -- Merging keeps what the literal set, and the lists stay empty until the policy's own come in.
  load_registries-fixed {ℓ} :
      {A : Type ℓ} (field : WriterPolicy → A)
      → ((r : SignedWriterRegistry) (m : WriterPolicy) → field (merge_registry r m) ≡ field m)
      → (trusted : TextMap Text) (sources : List Text) (start : WriterPolicy)
        {merged : WriterPolicy}
      → load_registries parse_time verify fetch trusted sources start ≡ ok merged
      → field merged ≡ field start
  unfolding load_registries
  load_registries-fixed field keeps trusted [] start h = ap field (eq_of_ok RegistryError (sym h))
  load_registries-fixed field keeps trusted (source ∷ sources) start h =
      let (r, _, h1) = >>=-eq-ok (load_source parse_time verify fetch source) _ h in
      let (_, _, h2) = >>=-eq-ok (validate parse_time verify r trusted) _ h1 in
      load_registries-fixed field keeps trusted sources (merge_registry r start) h2 ∙ keeps r start

  loaded-eq-ok :
      (p : WriterPolicy) {q : WriterPolicy}
      → is_nil (normalize p).shared_registries ≡ false
      → load_shared_registries parse_time verify fetch p ≡ ok q
      → (merged : WriterPolicy) × (load_registries parse_time verify fetch
            (normalize p).trusted_authorities
            (normalize p).shared_registries
            (merge_start (normalize p))
          ≡ ok merged)
        × (q ≡ merge_local (normalize p) merged)
  unfolding load_shared_registries
  loaded-eq-ok p some_source h =
      let (merged, e, h1) = >>=-eq-ok _ _ (rw some_source at h) in
      (merged, e, eq_of_ok RegistryError (sym h1))

  unloaded-eq-ok :
      (p : WriterPolicy) {q : WriterPolicy}
      → is_nil (normalize p).shared_registries ≡ true
      → load_shared_registries parse_time verify fetch p ≡ ok q
      → q ≡ normalize p
  unfolding load_shared_registries
  unloaded-eq-ok p none_named h = eq_of_ok RegistryError (sym (rw none_named at h))

  load_source-IsNormal :
      (source : Text) {r : SignedWriterRegistry}
      → load_source parse_time verify fetch source ≡ ok r
      → IsNormal false r.agent_capabilities
  unfolding load_source normalize_registry
  load_source-IsNormal source h = elim (Bool-cases (is_nil (trim_space source))) [
    | inl blank ↦ cc (rw blank at h)
    | inr given ↦ elim (Option-cases (fetch (trim_space source))) [
      | inl missing ↦ cc (rw (given, missing) at h)
      | inr (r, found) ↦
          subst (λ t. IsNormal false t.agent_capabilities)
            (eq_of_ok RegistryError (rw (given, found) at h))
            (normalize_capability_map-IsNormal r.agent_capabilities false)
    ]
  ]

  -- For a policy that names a shared registry, loading the shared registries without an error
  -- resets the trust mode to `exact`, whatever it was.
  pub load_shared_registries-trust_mode :
      (p : WriterPolicy) {q : WriterPolicy}
      → is_nil (normalize p).shared_registries ≡ false
      → load_shared_registries parse_time verify fetch p ≡ ok q
      → q.trust_mode ≡ WriterTrustMode.exact
  unfolding merge_local merge_start merge_registry normalize
  load_shared_registries-trust_mode p some_source h =
      let (merged, e, same) = loaded-eq-ok p some_source h in
      let kept : merged.trust_mode ≡ WriterTrustMode.other [] =
        load_registries-fixed (λ m. m.trust_mode) (λ r m. refl) _ _ _ e in
      ap (λ m. m.trust_mode) same
      ∙ (ap (λ t. normalize_writer_trust_mode t WriterTrustMode.exact) kept ∙ unset_trust_mode)

  -- Loading the shared registries without an error leaves the block lists and the whitelists of
  -- the policy as they are in its normal form: no registry adds to them or takes from them.
  pub load_shared_registries-lists :
      (p : WriterPolicy) {q : WriterPolicy}
      → load_shared_registries parse_time verify fetch p ≡ ok q
      → (q.blocked_agent_ids ≡ (normalize p).blocked_agent_ids)
        × (q.blocked_public_keys ≡ (normalize p).blocked_public_keys)
        × (q.allowed_agent_ids ≡ (normalize p).allowed_agent_ids)
        × (q.allowed_public_keys ≡ (normalize p).allowed_public_keys)
  unfolding merge_local merge_start merge_registry normalize
  load_shared_registries-lists p {q} h =
      elim (Bool-cases (is_nil (normalize p).shared_registries)) [
        | inl none_named ↦
            let same : q ≡ normalize p = unloaded-eq-ok p none_named h in
            (
              ap (λ m. m.blocked_agent_ids) same,
              ap (λ m. m.blocked_public_keys) same,
              ap (λ m. m.allowed_agent_ids) same,
              ap (λ m. m.allowed_public_keys) same,
            )
        | inr some_source ↦
            let (merged, e, same) = loaded-eq-ok p some_source h in
            (
              ap (λ m. m.blocked_agent_ids) same
                  ∙ (ap (λ l. unique_fold (l ++ unique_fold p.blocked_agent_ids))
                        (load_registries-fixed (λ m. m.blocked_agent_ids) (λ r m. refl) _ _ _ e)
                      ∙ unique_fold_idem p.blocked_agent_ids),
              ap (λ m. m.blocked_public_keys) same
                  ∙ (ap (λ l. normalize_hex_list (l ++ normalize_hex_list p.blocked_public_keys))
                        (load_registries-fixed (λ m. m.blocked_public_keys) (λ r m. refl) _ _ _ e)
                      ∙ normalize_hex_list_idem p.blocked_public_keys),
              ap (λ m. m.allowed_agent_ids) same
                  ∙ (ap (λ l. unique_fold (l ++ unique_fold p.allowed_agent_ids))
                        (load_registries-fixed (λ m. m.allowed_agent_ids) (λ r m. refl) _ _ _ e)
                      ∙ unique_fold_idem p.allowed_agent_ids),
              ap (λ m. m.allowed_public_keys) same
                  ∙ (ap (λ l. normalize_hex_list (l ++ normalize_hex_list p.allowed_public_keys))
                        (load_registries-fixed (λ m. m.allowed_public_keys) (λ r m. refl) _ _ _ e)
                      ∙ normalize_hex_list_idem p.allowed_public_keys),
            )
      ]

  load_registries-IsNormal :
      (trusted : TextMap Text) (sources : List Text) (start : WriterPolicy) {merged : WriterPolicy}
      → IsNormal false start.agent_capabilities
      → load_registries parse_time verify fetch trusted sources start ≡ ok merged
      → IsNormal false merged.agent_capabilities
  unfolding load_registries merge_registry
  load_registries-IsNormal trusted [] start n h =
      subst (λ m. IsNormal false m.agent_capabilities) (eq_of_ok RegistryError h) n
  load_registries-IsNormal trusted (source ∷ sources) start n h =
      let (r, loaded, h1) = >>=-eq-ok (load_source parse_time verify fetch source) _ h in
      let (_, _, h2) = >>=-eq-ok (validate parse_time verify r trusted) _ h1 in
      load_registries-IsNormal trusted sources (merge_registry r start)
        (merge_registry_capabilities-IsNormal false start.agent_capabilities r.agent_capabilities n
          (load_source-IsNormal source loaded))
        h2

  -- Where the policy's own map gives an agent a capability, that is the agent's entry after the
  -- shared registries are loaded without an error, whatever the registries say of it.
  pub load_shared_registries-own_capability :
      (p : WriterPolicy) (agent : Text) (c : WriterCapability) {q : WriterPolicy}
      → load_shared_registries parse_time verify fetch p ≡ ok q
      → lookup agent (normalize p).agent_capabilities ≡ some c
      → lookup agent q.agent_capabilities ≡ some c
  unfolding merge_local merge_start normalize
  load_shared_registries-own_capability p agent c {q} h own =
      elim (Bool-cases (is_nil (normalize p).shared_registries)) [
        | inl none_named ↦
            ap (λ m. lookup agent m.agent_capabilities) (unloaded-eq-ok p none_named h) ∙ own
        | inr some_source ↦
            let (merged, e, same) = loaded-eq-ok p some_source h in
            let mine = normalize_capability_map-IsNormal p.agent_capabilities false in
            let theirs =
              load_registries-IsNormal _ _ (merge_start (normalize p))
                (record { fixed = tt; distinct = tt }) e in
            ap (λ m. lookup agent m.agent_capabilities) same
            ∙ (ap (lookup agent) (
                  normalize_capability_map_of_IsNormal _ false (
                    merge_registry_capabilities-IsNormal false merged.agent_capabilities _ theirs
                      mine))
                ∙ (lookup-merge_registry_capabilities agent merged.agent_capabilities _
                      mine.distinct
                    ∙ ap (λ o. or_else o (lookup agent merged.agent_capabilities)) own))
      ]
