-- ===== src/Writer/Registry/Validate.antt =====
-- `SignedWriterRegistry.Validate` (internal/plugins/aip2p/writer_registry.go).
use ai_p2p.Prelude.{
  ℕ, Bool, true, false, List, [], ◌∷◌, ◌≡◌, refl, ◌↔◌, is_nil, Option, none, some, arith, ◌≢◌,
  Option-cases, some_of_ne_none, inl, inr,
}
use ai_p2p.Prelude.Results.{ok}
use ai_p2p.Text.{Text, codes}
use ai_p2p.Text.Laws.{text_eq_iff, text_eq_refl}
use ai_p2p.TextMap.{TextMap, lookup}
use ai_p2p.Writer.Modes.{normalize_fold_key}
use ai_p2p.Writer.Hex.{decode_hex_key}
use ai_p2p.Writer.Registry.{
  SignedWriterRegistry, UnsignedWriterRegistry, normalize_registry, payload, validate,
}

module _ (parse_time : Text → Option ℕ)
    (verify : List ℕ → UnsignedWriterRegistry → List ℕ → Bool) where
  -- A registry in its normal form that a trusted authority has signed.
  pub record IsAuthentic (r : SignedWriterRegistry) (trusted : TextMap Text) : Type 0 where
    pub named : is_nil r.authority_id ≡ false
    pub ed25519 : r.key_type ≡ codes "ed25519"
    pub signed_at : ℕ
    pub dated : parse_time r.signed_at ≡ some signed_at
    pub authority : lookup (normalize_fold_key r.authority_id) trusted ≡ some r.public_key
    pub key : List ℕ
    pub key_bytes : decode_hex_key r.public_key 32 ≡ some key
    pub signature : List ℕ
    pub signature_bytes : decode_hex_key r.signature 64 ≡ some signature
    pub verified : verify key (payload r) signature ≡ true

  module _ (raw : SignedWriterRegistry) (trusted : TextMap Text)
      (h : validate parse_time verify raw trusted ≡ ok tt) where
    abbrev registry : SignedWriterRegistry
    registry = normalize_registry raw

    signed_at_parses : parse_time registry.signed_at ≢ none
    unfolding validate
    signed_at_parses e = ground arith

    authority_trusted :
        lookup (normalize_fold_key registry.authority_id) trusted ≡ some registry.public_key
    unfolding validate
    authority_trusted =
        elim (Option-cases (lookup (normalize_fold_key registry.authority_id) trusted)) [
          | inl e ↦ absurd (ground arith)
          | inr (k, e) ↦ ground (arith, text_eq_iff k registry.public_key)
        ]

    key_decodes : decode_hex_key registry.public_key 32 ≢ none
    unfolding validate
    key_decodes e = ground arith

    signature_decodes : decode_hex_key registry.signature 64 ≢ none
    unfolding validate
    signature_decodes e = ground arith

    validate-IsAuthentic : IsAuthentic registry trusted
    unfolding validate
    validate-IsAuthentic =
        let (at, dated) = some_of_ne_none _ signed_at_parses in
        let (key, key_bytes) = some_of_ne_none _ key_decodes in
        let (signature, signature_bytes) = some_of_ne_none _ signature_decodes in
        record {
          named = ground arith;
          ed25519 = (text_eq_iff registry.key_type (codes "ed25519")).0 (ground arith);
          signed_at = at;
          dated = dated;
          authority = authority_trusted;
          key = key;
          key_bytes = key_bytes;
          signature = signature;
          signature_bytes = signature_bytes;
          verified = ground arith;
        }

  not_nil_of_lookup : (k v : Text) (m : TextMap Text) → lookup k m ≡ some v → is_nil m ≡ false
  unfolding lookup
  not_nil_of_lookup k v [] h = cc
  not_nil_of_lookup k v (e ∷ m) h = refl

  validate_of_IsAuthentic :
      (raw : SignedWriterRegistry) (trusted : TextMap Text)
      → IsAuthentic (normalize_registry raw) trusted
      → validate parse_time verify raw trusted ≡ ok tt
  unfolding validate
  validate_of_IsAuthentic raw trusted a =
      let r = normalize_registry raw in
      rw (
        a.named,
        (text_eq_iff r.key_type (codes "ed25519")).1 a.ed25519,
        a.dated,
        not_nil_of_lookup _ _ trusted a.authority,
        a.authority,
        text_eq_refl r.public_key,
        a.key_bytes,
        a.signature_bytes,
        a.verified,
      )

  -- `Validate` returns no error exactly when the registry, in its normal form, names its
  -- authority and an ed25519 key, has a time of signing, carries the key that the policy trusts
  -- for that authority, and its signature of every other field verifies under that key.
  pub validate_iff :
      (raw : SignedWriterRegistry) (trusted : TextMap Text)
      → (validate parse_time verify raw trusted ≡ ok tt)
        ↔ IsAuthentic (normalize_registry raw) trusted
  validate_iff raw trusted =
      (λ h. validate-IsAuthentic raw trusted h, λ a. validate_of_IsAuthentic raw trusted a)
