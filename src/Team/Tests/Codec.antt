-- ===== src/Team/Tests/Codec.antt =====
-- A codec of tasks for the examples, in the place of `json.Marshal` and `json.Unmarshal`: a task is a
-- list of fields, a field a list of texts, and a marker opens each field and each text.
use ai_p2p.Prelude.{
  ℕ, ◌+◌, ◌-◌, true, List, [], ◌∷◌, ◌++◌, ◌==◌, ◌≡◌, refl, ap, ◌∙◌, if◌then◌else◌, All, leb, Option,
  none, some, arith,
}
use ai_p2p.Text.{Text}
use ai_p2p.Text.Laws.{trim_space-line}
use ai_p2p.Team.Task.{Task}
use ai_p2p.Team.TaskStore.Contract.{IsCodec}

pub record Parts : Type 0 where
  pub fields : List (List Text)
  pub texts : List Text
  pub chars : Text

abbrev no_parts : Parts
no_parts = record { fields = []; texts = []; chars = [] }

-- Each printer takes what is printed after it.
unfoldable pub print_chars : Text → List ℕ → List ℕ
print_chars [] rest = rest
print_chars (c ∷ s) rest = (20002 + c) ∷ print_chars s rest

unfoldable pub print_texts : List Text → List ℕ → List ℕ
print_texts [] rest = rest
print_texts (s ∷ texts) rest = 20000 ∷ print_chars s (print_texts texts rest)

unfoldable pub print_fields : List (List Text) → List ℕ
print_fields [] = []
print_fields (texts ∷ fields) = 20001 ∷ print_texts texts (print_fields fields)

unfoldable pub put : ℕ → Parts → Parts
put c p =
    if c == 20000
    then record p { texts = p.chars ∷ p.texts; chars = [] }
    else if c == 20001
    then record p { fields = p.texts ∷ p.fields; texts = [] }
    else record p { chars = (c - 20002) ∷ p.chars }

unfoldable pub parse : List ℕ → Parts
parse [] = no_parts
parse (c ∷ s) = put c (parse s)

append-nil {ℓ} : {A : Type ℓ} (s : List A) → s ++ [] ≡ s
append-nil [] = refl
append-nil (c ∷ s) = ap (λ r. c ∷ r) (append-nil s)

put-char : (c : ℕ) (p : Parts) → put (20002 + c) p ≡ record p { chars = c ∷ p.chars }
unfolding put
put-char c p = ground arith

parse-print_chars :
    (s : Text) (rest : List ℕ)
    → parse (print_chars s rest) ≡ record (parse rest) { chars = s ++ (parse rest).chars }
unfolding parse print_chars
parse-print_chars [] rest = refl
parse-print_chars (c ∷ s) rest = ap (put (20002 + c)) (parse-print_chars s rest) ∙ put-char c _

parse-print_texts :
    (texts : List Text) (rest : List ℕ)
    → (parse rest).chars ≡ []
    → parse (print_texts texts rest)
      ≡ record (parse rest) { texts = texts ++ (parse rest).texts; chars = [] }
unfolding parse print_texts put
parse-print_texts [] rest h = λ i. record (parse rest) { chars = h i }
parse-print_texts (s ∷ texts) rest h =
    ap (put 20000) (
      parse-print_chars s (print_texts texts rest)
      ∙ ap (λ (p : Parts). record p { chars = s ++ p.chars }) (parse-print_texts texts rest h))
    ∙ ap {B = Parts}
        (λ t. record (parse rest) { texts = t ∷ (texts ++ (parse rest).texts); chars = [] })
        (append-nil s)

parse-print_fields :
    (fields : List (List Text))
    → parse (print_fields fields) ≡ record { fields = fields; texts = []; chars = [] }
unfolding parse print_fields put
parse-print_fields [] = refl
parse-print_fields (texts ∷ fields) =
    ap (put 20001) (
      parse-print_texts texts (print_fields fields)
        (ap (λ (p : Parts). p.chars) (parse-print_fields fields))
      ∙ ap (λ (p : Parts). record p { texts = texts ++ p.texts; chars = [] })
          (parse-print_fields fields))
    ∙ ap {B = Parts} (λ t. record { fields = t ∷ fields; texts = []; chars = [] })
        (append-nil texts)

IsPrinted : List ℕ → Type 0
IsPrinted s = All (λ c. leb 20000 c ≡ true) s

print_chars-IsPrinted : (s : Text) (rest : List ℕ) → IsPrinted rest → IsPrinted (print_chars s rest)
unfolding print_chars IsPrinted
print_chars-IsPrinted [] rest h = h
print_chars-IsPrinted (c ∷ s) rest h = (ground arith, print_chars-IsPrinted s rest h)

print_texts-IsPrinted :
    (texts : List Text) (rest : List ℕ) → IsPrinted rest → IsPrinted (print_texts texts rest)
unfolding print_texts IsPrinted
print_texts-IsPrinted [] rest h = h
print_texts-IsPrinted (s ∷ texts) rest h =
    (refl, print_chars-IsPrinted s _ (print_texts-IsPrinted texts rest h))

print_fields-IsPrinted : (fields : List (List Text)) → IsPrinted (print_fields fields)
unfolding print_fields IsPrinted
print_fields-IsPrinted [] = tt
print_fields-IsPrinted (texts ∷ fields) =
    (refl, print_texts-IsPrinted texts _ (print_fields-IsPrinted fields))

abbrev pub task_fields : Task → List (List Text)
task_fields t =
    (t.task_id
      ∷ t.team_id
      ∷ t.channel_id
      ∷ t.context_id
      ∷ t.title
      ∷ t.description
      ∷ t.created_by
      ∷ t.status
      ∷ t.priority
      ∷ t.origin_public_key
      ∷ t.parent_public_key
      ∷ (t.due_at ∷ t.created_at ∷ t.updated_at ∷ t.closed_at ∷ [])
      ∷ [])
    ∷ t.assignees
    ∷ t.labels
    ∷ []

abbrev pub fields_task : List (List Text) → Option Task
fields_task
      ((id
          ∷ team
          ∷ channel
          ∷ context
          ∷ title
          ∷ description
          ∷ creator
          ∷ status
          ∷ priority
          ∷ origin
          ∷ parent
          ∷ (due ∷ created ∷ updated ∷ closed ∷ [])
          ∷ [])
        ∷ assignees
        ∷ labels
        ∷ []) =
    some (record {
      task_id = id;
      team_id = team;
      channel_id = channel;
      context_id = context;
      title = title;
      description = description;
      created_by = creator;
      assignees = assignees;
      status = status;
      priority = priority;
      due_at = due;
      labels = labels;
      origin_public_key = origin;
      parent_public_key = parent;
      created_at = created;
      updated_at = updated;
      closed_at = closed;
    })
fields_task _ = none

unfoldable pub print_task : Task → List ℕ
print_task t = print_fields (task_fields t)

unfoldable pub read_task : List ℕ → Option Task
read_task s = fields_task (parse s).fields

pub read-print_task : IsCodec print_task read_task
unfolding print_task read_task print_fields IsPrinted
read-print_task t =
    ap read_task (trim_space-line (print_task t) (print_fields-IsPrinted (task_fields t)) refl)
    ∙ ap (λ (p : Parts). fields_task p.fields) (parse-print_fields (task_fields t))
