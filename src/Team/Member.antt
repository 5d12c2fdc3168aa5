-- ===== src/Team/Member.antt =====
-- The members of a team (internal/aip2p/team/store.go: `Member`; normalize.go: `normalizeMemberRole`,
-- `normalizeMemberStatus`; sync.go: `normalizeReplicatedMembers`, `membersSnapshotVersion`).
use ai_p2p.Prelude.{ℕ, ltb, Bool, not, List, [], ◌∷◌, if◌then◌else◌, is_nil}
use ai_p2p.Prelude.Sorting.{sort_stable}
use ai_p2p.Text.{Text, codes, text_eq, text_lt, trim_space, to_lower, contains}
use ai_p2p.Team.TaskState.{one_of}
use ai_p2p.Team.Task.{is_zero, or_time}

pub record Member : Type 0 where
  pub agent_id : Text
  pub origin_public_key : Text
  pub parent_public_key : Text
  pub role : Text
  pub status : Text
  pub joined_at : ℕ
  pub updated_at : ℕ

-- A `switch` that returns the case that matches, and a default: the cases but the default's.
abbrev pub one_of_or : Text → List Text → Text → Text
one_of_or key cases fallback = if one_of key cases then key else fallback

-- `normalizeMemberRole`.
unfoldable pub normalize_member_role : Text → Text
normalize_member_role value =
    one_of_or (to_lower (trim_space value))
      (codes "owner" ∷ codes "maintainer" ∷ codes "observer" ∷ []) (codes "member")

-- `normalizeMemberStatus`.
unfoldable pub normalize_member_status : Text → Text
normalize_member_status value =
    one_of_or (to_lower (trim_space value)) (codes "pending" ∷ codes "muted" ∷ codes "removed" ∷ [])
      (codes "active")

-- The comparison of the sort: by role, then by agent id.
abbrev pub member_before : Member → Member → Bool
member_before a b =
    if not (text_eq a.role b.role) then text_lt a.role b.role else text_lt a.agent_id b.agent_id

abbrev pub normal_member : ℕ → Member → Member
normal_member now m =
    let joined_at = or_time m.joined_at now in
    record m {
      agent_id = trim_space m.agent_id;
      role = normalize_member_role m.role;
      status = normalize_member_status m.status;
      joined_at = joined_at;
      updated_at = or_time m.updated_at joined_at;
    }

-- The loop of `normalizeReplicatedMembers`, over the agent ids that it has seen.
unfoldable pub members_loop : ℕ → List Text → List Member → List Member
members_loop now seen [] = []
members_loop now seen (m ∷ rest) =
    let id = trim_space m.agent_id in
    let skipped = members_loop now seen rest in
    let kept = normal_member now m ∷ members_loop now (id ∷ seen) rest in
    if is_nil id then skipped else if contains seen id then skipped else kept

-- `normalizeReplicatedMembers`, at the time `now`.
unfoldable pub normalize_replicated_members : ℕ → List Member → List Member
normalize_replicated_members now members = sort_stable member_before (members_loop now [] members)

-- `membersSnapshotVersion`: the latest update, or the latest joining of a member never updated.
unfoldable pub snapshot_loop : ℕ → List Member → ℕ
snapshot_loop latest [] = latest
snapshot_loop latest (m ∷ rest) =
    let at = if not (is_zero m.updated_at) then m.updated_at else m.joined_at in
    snapshot_loop (if ltb latest at then at else latest) rest

unfoldable pub members_snapshot_version : List Member → ℕ
members_snapshot_version members = snapshot_loop 0 members
