-- ===== src/Writer/Lists.antt =====
-- The lists of agent ids and keys: `uniqueFold` of subscriptions.go, `containsFold` of index.go,
-- `uniqueTrim` of writer_registry.go and `normalizeHexList` of writer_policy.go.
pub mod Laws
use ai_p2p.Prelude.{Bool, List, [], ◌∷◌, if◌then◌else◌, is_nil, any}
use ai_p2p.Text.{Text, trim_space, to_lower, contains, equal_fold}
use ai_p2p.Writer.Modes.{normalize_fold_key}

-- The loop of `uniqueFold`, whose keys are lower-cased, and of `uniqueTrim`, whose keys are the
-- items: the first item of each key, trimmed, with the empty ones left out.
unique_loop : (Text → Text) → List Text → List Text → List Text
unique_loop key seen [] = []
unique_loop key seen (raw ∷ items) =
    let item = trim_space raw in
    let skipped = unique_loop key seen items in
    let kept = item ∷ unique_loop key (key item ∷ seen) items in
    if is_nil item then skipped else if contains seen (key item) then skipped else kept

unfoldable pub unique_fold : List Text → List Text
unfolding unique_loop
unique_fold items = unique_loop to_lower [] items

unfoldable pub unique_trim : List Text → List Text
unfolding unique_loop
unique_trim items = unique_loop (λ item. item) [] items

fold_keys : List Text → List Text
fold_keys [] = []
fold_keys (raw ∷ items) =
    let item = normalize_fold_key raw in
    let rest = fold_keys items in if is_nil item then rest else item ∷ rest

unfoldable pub normalize_hex_list : List Text → List Text
unfolding fold_keys
normalize_hex_list items = unique_fold (fold_keys items)

-- `containsFold`.
unfoldable pub contains_fold : List Text → Text → Bool
unfolding any
contains_fold items target = any (λ item. equal_fold item target) items
