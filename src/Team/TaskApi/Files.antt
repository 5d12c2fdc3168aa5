-- ===== src/Team/TaskApi/Files.antt =====
-- The files of a team's directory (internal/aip2p/team/paths.go: `taskIndexPath`, `taskDataPath`).
use ai_p2p.Prelude.{◌≡◌, refl}
use ai_p2p.Text.{Text}
use ai_p2p.Text.Laws.{text_eq_iff}
use ai_p2p.Team.TaskStore.{TaskFiles}
use ai_p2p.Team.TaskApi.{TeamFiles, put_files}

-- What is written to a directory is read from it.
pub put_files_self :
    (dir : Text) (files : TaskFiles) (store : TeamFiles) → put_files dir files store dir ≡ files
unfolding put_files
put_files_self dir files store = rw ((text_eq_iff dir dir).1 refl) refl
