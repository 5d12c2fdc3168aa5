-- ===== src/Team/Policy.antt =====
-- The policy of a team (internal/aip2p/team/store.go: `Policy`, its normal form and `Allows`).
use ai_p2p.Prelude.{
  ℕ, Bool, false, ◌||◌, List, [], ◌∷◌, if◌then◌else◌, is_nil, any, Option, none, some,
}
use ai_p2p.Text.{Text, codes, text_eq, trim_space, to_lower, contains, has_prefix}
use ai_p2p.TextMap.{TextMap, lookup, rebuild}
use ai_p2p.Team.TaskState.{TaskTransitionRule, normalize_task_transitions, one_of}
use ai_p2p.Team.Member.{normalize_member_role}

pub record Policy : Type 0 where
  pub message_roles : List Text
  pub task_roles : List Text
  pub system_note_roles : List Text
  pub permissions : TextMap (List Text)
  pub require_signature : Bool
  pub task_transitions : TextMap TaskTransitionRule
  pub updated_at : ℕ

-- The loop of `normalizePolicyRoles`.
unfoldable pub roles_loop : List Text → List Text → List Text
roles_loop seen [] = []
roles_loop seen (value ∷ rest) =
    let role = normalize_member_role value in
    let skipped = roles_loop seen rest in
    let kept = role ∷ roles_loop (role ∷ seen) rest in if contains seen role then skipped else kept

-- `normalizePolicyRoles`.
unfoldable pub normalize_policy_roles : List Text → List Text → List Text
normalize_policy_roles values defaults =
    let out = roles_loop [] (if is_nil values then defaults else values) in
    if is_nil out then defaults else out

-- `normalizePolicyAction`.
unfoldable pub normalize_policy_action : Text → Text
normalize_policy_action value = to_lower (trim_space value)

abbrev pub permission_entry : Text → List Text → Option (Text × List Text)
permission_entry raw roles =
    let action = normalize_policy_action raw in
    if is_nil action then none else some (action, normalize_policy_roles roles [])

-- `normalizePolicyPermissions`.
unfoldable pub normalize_policy_permissions : TextMap (List Text) → TextMap (List Text)
unfolding rebuild
normalize_policy_permissions values = rebuild permission_entry [] values

-- `normalizePolicy`.
unfoldable pub normalize_policy : Policy → Policy
normalize_policy p = record p {
  message_roles =
      normalize_policy_roles p.message_roles
        (codes "owner" ∷ codes "maintainer" ∷ codes "member" ∷ []);
  task_roles =
      normalize_policy_roles p.task_roles
        (codes "owner" ∷ codes "maintainer" ∷ codes "member" ∷ []);
  system_note_roles =
      normalize_policy_roles p.system_note_roles (codes "owner" ∷ codes "maintainer" ∷ []);
  permissions = normalize_policy_permissions p.permissions;
  task_transitions = normalize_task_transitions p.task_transitions;
}

-- `policySnapshotVersion`.
unfoldable pub policy_snapshot_version : Policy → ℕ
policy_snapshot_version p = p.updated_at

-- `containsRole`.
unfoldable pub contains_role : List Text → Text → Bool
unfolding any
contains_role values raw =
    let role = normalize_member_role raw in
    any (λ value. text_eq (normalize_member_role value) role) values

-- `Policy.legacyAllows`.
unfoldable pub legacy_allows : Policy → Text → Text → Bool
legacy_allows p action role =
    if text_eq action (codes "message.send")
    then contains_role p.message_roles role
    else if has_prefix action (codes "task.")
    then contains_role p.task_roles role
    else if has_prefix action (codes "artifact.")
    then contains_role p.task_roles role
    else if has_prefix action (codes "member.")
    then contains_role p.system_note_roles role
    else if has_prefix action (codes "channel.")
    then contains_role p.system_note_roles role
    else if one_of action (
        codes "policy.update"
        ∷ codes "sync.conflict.resolve"
        ∷ codes "archive.create"
        ∷ codes "agent_card.register"
        ∷ [])
    then contains_role p.system_note_roles role
    else false

-- `Policy.Allows`. (A role is never empty once it is normalised.)
unfoldable pub allows : Policy → Text → Text → Bool
allows p raw_action raw_role =
    let action = normalize_policy_action raw_action in
    let role = normalize_member_role raw_role in
    if is_nil action || is_nil role then false else elim (lookup action p.permissions) [
      | some roles ↦ contains_role roles role
      | none ↦ legacy_allows p action role
    ]
