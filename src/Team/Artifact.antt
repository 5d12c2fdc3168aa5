-- ===== src/Team/Artifact.antt =====
-- The artifacts of a team (internal/aip2p/team/store.go: `Artifact`, `buildArtifactID`; normalize.go:
-- `normalizeArtifactKind`; sync.go: `normalizeReplicatedArtifact`, `artifactVersion`).
use ai_p2p.Prelude.{ℕ, not, List, [], ◌∷◌, ◌++◌, if◌then◌else◌, Option}
use ai_p2p.Text.{Text, codes, trim_space, to_lower}
use ai_p2p.Team.Id.{normalize_team_id, normalize_channel_id}
use ai_p2p.Team.Task.{is_zero, or_text, or_time, normalize_non_empty_strings}
use ai_p2p.Team.Member.{one_of_or}

pub record Artifact : Type 0 where
  pub artifact_id : Text
  pub team_id : Text
  pub channel_id : Text
  pub task_id : Text
  pub title : Text
  pub kind : Text
  pub summary : Text
  pub content : Text
  pub link_url : Text
  pub created_by : Text
  pub origin_public_key : Text
  pub parent_public_key : Text
  pub labels : List Text
  pub created_at : ℕ
  pub updated_at : ℕ

-- `normalizeArtifactKind`.
unfoldable pub normalize_artifact_kind : Text → Text
normalize_artifact_kind value =
    one_of_or (to_lower (trim_space value))
      (codes "json"
        ∷ codes "link"
        ∷ codes "post"
        ∷ codes "skill-doc"
        ∷ codes "plan-summary"
        ∷ codes "review-summary"
        ∷ [])
      (codes "markdown")

-- `artifactVersion`.
unfoldable pub artifact_version : Artifact → ℕ
artifact_version artifact =
    if not (is_zero artifact.updated_at) then artifact.updated_at else artifact.created_at

module _ (path_unescape : Text → Option Text) (format_rfc3339 : ℕ → Text) where
  -- `buildArtifactID`.
  unfoldable pub build_artifact_id : Text → Text → ℕ → Text → Text
  build_artifact_id team_id created_by created_at title =
      trim_space team_id
      ++ (codes ":"
          ++ (trim_space created_by
              ++ (codes ":" ++ (format_rfc3339 created_at ++ (codes ":" ++ trim_space title)))))

  -- `normalizeReplicatedArtifact`, at the time `now`.
  unfoldable pub normalize_replicated_artifact : ℕ → Text → Artifact → Artifact
  normalize_replicated_artifact now raw_team artifact =
      let team = normalize_team_id path_unescape raw_team in
      let title = trim_space artifact.title in
      let created_by = trim_space artifact.created_by in
      let created_at = or_time artifact.created_at now in
      record artifact {
        artifact_id =
            or_text (trim_space artifact.artifact_id)
              (build_artifact_id team created_by created_at title);
        team_id = team;
        channel_id = normalize_channel_id path_unescape artifact.channel_id;
        task_id = trim_space artifact.task_id;
        title = title;
        kind = normalize_artifact_kind artifact.kind;
        summary = trim_space artifact.summary;
        content = trim_space artifact.content;
        link_url = trim_space artifact.link_url;
        created_by = created_by;
        labels = normalize_non_empty_strings artifact.labels;
        created_at = created_at;
        updated_at = or_time artifact.updated_at created_at;
      }
