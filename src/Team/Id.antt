-- ===== src/Team/Id.antt =====
-- Team and channel names (internal/aip2p/team/normalize.go: `NormalizeTeamID`,
-- `normalizeChannelID`). `url.PathUnescape` is the parameter `path_unescape`, `none` its error.
pub mod Laws
use ai_p2p.Prelude.{
  ℕ, zero, suc, Bool, true, false, ◌||◌, ◌&&◌, List, [], ◌∷◌, ◌++◌, map, ◌==◌, if◌then◌else◌,
  is_nil, length, Option, none, some,
}
use ai_p2p.Text.{Text, codes, trim_space, to_lower, has_prefix}

-- `strings.ReplaceAll(s, from, to)` where each of the two is one character.
unfoldable pub replace_char : ℕ → ℕ → Text → Text
replace_char from to s = map (λ c. if c == from then to else c) s

-- `strings.ReplaceAll(s, cc, r)` for the same character `c` twice.
unfoldable pub replace_pair : ℕ → Text → Text → Text
replace_pair c r [] = []
replace_pair c r (x ∷ []) = x ∷ []
replace_pair c r (x ∷ y ∷ s) =
    let after = replace_pair c r s in
    let rest = replace_pair c r (y ∷ s) in if x == c && y == c then r ++ after else x ∷ rest

-- `strings.Contains(s, cc)` for the same character `c` twice.
unfoldable pub contains_pair : ℕ → Text → Bool
contains_pair c [] = false
contains_pair c (x ∷ []) = false
contains_pair c (x ∷ y ∷ s) = (x == c && y == c) || contains_pair c (y ∷ s)

-- The loop `for strings.Contains(value, "--")`, with fuel: a pass takes one character at least.
unfoldable pub squeeze : ℕ → Text → Text
squeeze zero value = value
squeeze (suc fuel) value =
    let again = squeeze fuel (replace_pair 45 (45 ∷ []) value) in
    if contains_pair 45 value then again else value

-- `strings.Trim(s, "-.")`.
abbrev pub is_edge : ℕ → Bool
is_edge c = c == 45 || c == 46

unfoldable pub trim_edge_left : Text → Text
trim_edge_left [] = []
trim_edge_left (c ∷ s) = let rest = trim_edge_left s in if is_edge c then rest else c ∷ s

unfoldable pub trim_edge_right : Text → Text
trim_edge_right [] = []
trim_edge_right (c ∷ s) =
    let rest = trim_edge_right s in if is_edge c && is_nil rest then [] else c ∷ rest

-- `if decoded, err := f(value); err == nil { value = decoded }`.
unfoldable pub or_same : Option Text → Text → Text
or_same (some decoded) value = decoded
or_same none value = value

-- The four replacements of one character.
unfoldable pub replace_separators : Text → Text
replace_separators value =
    replace_char 32 45 (replace_char 95 45 (replace_char 47 45 (replace_char 92 45 value)))

-- The `strings.ReplaceAll(value, "..", "")`, the loop and the `strings.Trim`.
unfoldable pub clean : Text → Text
clean value =
    let plain = replace_pair 46 [] value in
    trim_edge_right (trim_edge_left (squeeze (length plain) plain))

-- `if strings.Contains(value, "..") || filepath.IsAbs(value) { return "" }`.
unfoldable pub reject_path : Text → Text
reject_path value = if contains_pair 46 value || has_prefix value (codes "/") then [] else value

module _ (path_unescape : Text → Option Text) where
  -- `NormalizeTeamID`.
  unfoldable pub normalize_team_id : Text → Text
  normalize_team_id raw =
      let value = trim_space raw in
      reject_path (clean (replace_separators (to_lower (or_same (path_unescape value) value))))

  -- `normalizeChannelID`.
  unfoldable pub normalize_channel_id : Text → Text
  normalize_channel_id raw =
      let value = normalize_team_id raw in if is_nil value then codes "main" else value
