-- ===== src/Writer/Delegation.antt =====
-- Delegations and revocations (internal/plugins/aip2p/delegation.go): a parent lets a child write
-- under its name, in some scopes and until some time, unless it has revoked that. Instants are
-- natural numbers; `parse_time` is `time.Parse(time.RFC3339, ...)`, where `none` is its error, and
-- `clock` is what `time.Now()` returns. Zero is the zero time.
pub mod Order
pub mod Active
pub mod Load
use ai_p2p.Prelude.{
  ℕ, Bool, true, false, not, ◌&&◌, ◌||◌, List, [], ◌∷◌, if◌then◌else◌, is_nil, any, keep, Option,
  none, some, ltb, leb, ◌==◌, map,
}
use ai_p2p.Text.{Text, codes, text_eq, text_lt, trim_space, to_lower}
use ai_p2p.Writer.Modes.{normalize_fold_key}
use ai_p2p.Writer.Lists.{unique_fold}

pub record WriterDelegation : Type 0 where
  pub kind : Text
  pub version : Text
  pub parent_agent_id : Text
  pub parent_key_type : Text
  pub parent_public_key : Text
  pub child_agent_id : Text
  pub child_key_type : Text
  pub child_public_key : Text
  pub scopes : List Text
  pub created_at : Text
  pub expires_at : Text
  pub signature : Text

pub record WriterRevocation : Type 0 where
  pub kind : Text
  pub version : Text
  pub parent_agent_id : Text
  pub parent_key_type : Text
  pub parent_public_key : Text
  pub child_agent_id : Text
  pub child_key_type : Text
  pub child_public_key : Text
  pub reason : Text
  pub created_at : Text
  pub signature : Text

pub record DelegationStore : Type 0 where
  pub delegations : List WriterDelegation
  pub revocations : List WriterRevocation

abbrev pub empty_store : DelegationStore
empty_store = record { delegations = []; revocations = [] }

-- `if value == "" { value = fallback }`.
unfoldable pub default_to : Text → Text → Text
default_to fallback value = if is_nil value then fallback else value

-- `(*WriterDelegation).Normalize`.
unfoldable pub normalize_delegation : WriterDelegation → WriterDelegation
normalize_delegation d = record {
  kind = default_to (codes "writer_delegation") (trim_space d.kind);
  version = default_to (codes "aip2p-delegation/0.1") (trim_space d.version);
  parent_agent_id = trim_space d.parent_agent_id;
  parent_key_type = default_to (codes "ed25519") (trim_space d.parent_key_type);
  parent_public_key = to_lower (trim_space d.parent_public_key);
  child_agent_id = trim_space d.child_agent_id;
  child_key_type = default_to (codes "ed25519") (trim_space d.child_key_type);
  child_public_key = to_lower (trim_space d.child_public_key);
  scopes = unique_fold d.scopes;
  created_at = trim_space d.created_at;
  expires_at = trim_space d.expires_at;
  signature = to_lower (trim_space d.signature);
}

-- `(*WriterRevocation).Normalize`.
unfoldable pub normalize_revocation : WriterRevocation → WriterRevocation
normalize_revocation r = record {
  kind = default_to (codes "writer_revocation") (trim_space r.kind);
  version = default_to (codes "aip2p-delegation/0.1") (trim_space r.version);
  parent_agent_id = trim_space r.parent_agent_id;
  parent_key_type = default_to (codes "ed25519") (trim_space r.parent_key_type);
  parent_public_key = to_lower (trim_space r.parent_public_key);
  child_agent_id = trim_space r.child_agent_id;
  child_key_type = default_to (codes "ed25519") (trim_space r.child_key_type);
  child_public_key = to_lower (trim_space r.child_public_key);
  reason = trim_space r.reason;
  created_at = trim_space r.created_at;
  signature = to_lower (trim_space r.signature);
}

unfoldable pub delegation_scope_matches : WriterDelegation → Text → Bool
unfolding any
delegation_scope_matches d scope =
    if is_nil d.scopes
    then true
    else if is_nil scope
    then true
    else any (λ item. text_eq (normalize_fold_key item) scope) d.scopes

module _ (parse_time : Text → Option ℕ) where
  unfoldable pub delegation_expired : WriterDelegation → ℕ → Bool
  delegation_expired d now =
      if is_nil (trim_space d.expires_at) then false else elim (parse_time d.expires_at) [
        | none ↦ true
        | some expires_at ↦ not (ltb now expires_at)
      ]

  -- One round of the loop of `isRevoked`: whether this revocation revokes the delegation.
  unfoldable pub revokes : WriterDelegation → ℕ → ℕ → WriterRevocation → Bool
  revokes d delegation_time now raw =
      let r = normalize_revocation raw in
      if not (text_eq r.parent_agent_id d.parent_agent_id)
      then false
      else if not (text_eq r.parent_public_key d.parent_public_key)
      then false
      else if not (text_eq r.child_agent_id d.child_agent_id)
      then false
      else if not (text_eq r.child_public_key d.child_public_key)
      then false
      else elim (parse_time r.created_at) [
        | none ↦ false
        | some revocation_time ↦
            if ltb revocation_time delegation_time then false else not (ltb now revocation_time)
      ]

  unfoldable pub is_revoked : DelegationStore → WriterDelegation → ℕ → Bool
  unfolding any
  is_revoked s d now = elim (parse_time d.created_at) [
    | none ↦ true
    | some delegation_time ↦ any (revokes d delegation_time now) s.revocations
  ]

  -- One round of the loop of `ActiveDelegationFor`, over a normalised delegation and normalised keys.
  unfoldable pub is_candidate : DelegationStore → Text → Text → Text → ℕ → WriterDelegation → Bool
  is_candidate s child_agent_id child_public_key scope now d =
      if not (text_eq (trim_space d.child_agent_id) child_agent_id)
      then false
      else if not (text_eq (to_lower (trim_space d.child_public_key)) child_public_key)
      then false
      else if not (delegation_scope_matches d scope)
      then false
      else if delegation_expired d now
      then false
      else not (is_revoked s d now)

-- `sort.SliceStable` with `candidates[i].CreatedAt > candidates[j].CreatedAt`: a stable insertion.
insert_newest : WriterDelegation → List WriterDelegation → List WriterDelegation
insert_newest d [] = d ∷ []
insert_newest d (e ∷ ds) =
    let rest = insert_newest d ds in
    if text_lt d.created_at e.created_at then e ∷ rest else d ∷ (e ∷ ds)

unfoldable pub sort_newest : List WriterDelegation → List WriterDelegation
unfolding insert_newest
sort_newest [] = []
sort_newest (d ∷ ds) = insert_newest d (sort_newest ds)

abbrev pub first {ℓ} : {A : Type ℓ} → List A → Option A
first [] = none
first (x ∷ xs) = some x

module _ (parse_time : Text → Option ℕ) (clock : ℕ) where
  -- `ActiveDelegationFor`.
  unfoldable pub active_delegation_for :
      DelegationStore → Text → Text → Text → ℕ → Option WriterDelegation
  active_delegation_for s raw_agent_id raw_public_key raw_scope given_now =
      let now = if given_now == 0 then clock else given_now in
      let child_agent_id = trim_space raw_agent_id in
      let child_public_key = to_lower (trim_space raw_public_key) in
      let scope = normalize_fold_key raw_scope in
      first (
        sort_newest (
          keep (is_candidate parse_time s child_agent_id child_public_key scope now)
            (map normalize_delegation s.delegations)))
