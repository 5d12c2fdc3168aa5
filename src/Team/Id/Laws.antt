-- ===== src/Team/Id/Laws.antt =====
-- The characters of a normalised name (internal/aip2p/team/normalize.go: `NormalizeTeamID`).
use ai_p2p.Prelude.{
  ℕ, zero, suc, ◌≤◌, ◌<◌, Bool, true, false, ◌||◌, not, [], ◌∷◌, ◌++◌, ◌==◌, ◌≡◌, refl, length, All,
  Option, arith, Bool-cases, inl, inr,
}
use ai_p2p.Text.{Text, trim_space, to_lower}
use ai_p2p.Team.Id.{
  replace_char, replace_pair, contains_pair, squeeze, trim_edge_left, trim_edge_right, or_same,
  replace_separators, clean, reject_path, normalize_team_id,
}

-- A character that a file name may hold: no separator of either kind, no "_", no space.
abbrev pub is_plain : ℕ → Bool
is_plain c = not (c == 92 || (c == 47 || (c == 95 || c == 32)))

abbrev pub IsPlain : ℕ → Type 0
IsPlain c = is_plain c ≡ true

replace_separators-All : (s : Text) → All IsPlain (replace_separators s)
unfolding replace_separators replace_char
replace_separators-All [] = tt
replace_separators-All (c ∷ s) = (ground arith, replace_separators-All s)

append-All : (P : ℕ → Type 0) (s t : Text) → All P s → All P t → All P (s ++ t)
append-All P [] t h k = k
append-All P (c ∷ s) t h k = (h.0, append-All P s t h.1 k)

replace_pair-All :
    (c : ℕ) (r s : Text) → All IsPlain r → All IsPlain s → All IsPlain (replace_pair c r s)
unfolding replace_pair
replace_pair-All c r [] k h = tt
replace_pair-All c r (x ∷ []) k h = h
replace_pair-All c r (x ∷ y ∷ s) k h = ground (
  arith,
  replace_pair-All c r (y ∷ s) k h.1,
  append-All IsPlain r (replace_pair c r s) k (replace_pair-All c r s k h.1.1),
)

squeeze-All : (fuel : ℕ) (s : Text) → All IsPlain s → All IsPlain (squeeze fuel s)
unfolding squeeze
squeeze-All zero s h = h
squeeze-All (suc fuel) s h = ground (
  arith,
  squeeze-All fuel (replace_pair 45 (45 ∷ []) s) (replace_pair-All 45 (45 ∷ []) s (refl, tt) h),
)

trim_edge_left-All : (s : Text) → All IsPlain s → All IsPlain (trim_edge_left s)
unfolding trim_edge_left
trim_edge_left-All [] h = tt
trim_edge_left-All (c ∷ s) h = ground (arith, trim_edge_left-All s h.1)

trim_edge_right-All : (s : Text) → All IsPlain s → All IsPlain (trim_edge_right s)
unfolding trim_edge_right
trim_edge_right-All [] h = tt
trim_edge_right-All (c ∷ s) h = ground (arith, trim_edge_right-All s h.1)

-- A pass never lengthens a text, and shortens one that holds a pair.
length-replace_pair : (s : Text) → length (replace_pair 45 (45 ∷ []) s) ≤ length s
unfolding replace_pair
length-replace_pair [] = ground arith
length-replace_pair (x ∷ []) = ground arith
length-replace_pair (x ∷ y ∷ s) = ground (arith, length-replace_pair s, length-replace_pair (y ∷ s))

length-replace_pair_of_pair :
    (s : Text) → contains_pair 45 s ≡ true → length (replace_pair 45 (45 ∷ []) s) < length s
unfolding replace_pair contains_pair
length-replace_pair_of_pair [] h = ground arith
length-replace_pair_of_pair (x ∷ []) h = ground arith
length-replace_pair_of_pair (x ∷ y ∷ s) h =
    ground (arith, length-replace_pair s, length-replace_pair_of_pair (y ∷ s))

-- With as much fuel as the text is long, the loop ends because no pair is left.
squeeze-pair : (fuel : ℕ) (s : Text) → length s ≤ fuel → contains_pair 45 (squeeze fuel s) ≡ false
unfolding squeeze contains_pair
squeeze-pair zero [] h = refl
squeeze-pair zero (x ∷ s) h = ground arith
squeeze-pair (suc fuel) s h = elim (Bool-cases (contains_pair 45 s)) [
  | inl pair ↦ rw pair (
      squeeze-pair fuel (replace_pair 45 (45 ∷ []) s)
        (ground (arith, length-replace_pair_of_pair s pair)))
  | inr no_pair ↦ rw (no_pair) no_pair
]

trim_edge_left-pair :
    (c : ℕ) (s : Text) → contains_pair c s ≡ false → contains_pair c (trim_edge_left s) ≡ false
unfolding trim_edge_left contains_pair
trim_edge_left-pair c [] h = refl
trim_edge_left-pair c (x ∷ []) h = ground arith
trim_edge_left-pair c (x ∷ y ∷ s) h = ground (arith, trim_edge_left-pair c (y ∷ s))

-- Trimming the right keeps the first character of what it keeps.
trim_edge_right-pair :
    (c : ℕ) (s : Text) → contains_pair c s ≡ false → contains_pair c (trim_edge_right s) ≡ false
unfolding trim_edge_right contains_pair
trim_edge_right-pair c [] h = refl
trim_edge_right-pair c (x ∷ []) h = ground arith
trim_edge_right-pair c (x ∷ y ∷ s) h = ground (arith, trim_edge_right-pair c (y ∷ s))

reject_path-All : (s : Text) → All IsPlain s → All IsPlain (reject_path s)
unfolding reject_path
reject_path-All s h = ground arith

reject_path-pair : (s : Text) → contains_pair 46 (reject_path s) ≡ false
unfolding reject_path contains_pair
reject_path-pair s = ground arith

reject_path-keeps :
    (c : ℕ) (s : Text) → contains_pair c s ≡ false → contains_pair c (reject_path s) ≡ false
unfolding reject_path contains_pair
reject_path-keeps c s h = ground arith

clean-All : (s : Text) → All IsPlain s → All IsPlain (clean s)
unfolding clean
clean-All s h = trim_edge_right-All _ (
    trim_edge_left-All _
      (squeeze-All (length (replace_pair 46 [] s)) _ (replace_pair-All 46 [] s tt h)))

clean-pair : (s : Text) → contains_pair 45 (clean s) ≡ false
unfolding clean
clean-pair s = trim_edge_right-pair 45 _ (
    trim_edge_left-pair 45 _
      (squeeze-pair (length (replace_pair 46 [] s)) (replace_pair 46 [] s) (ground arith)))

-- A normalised name is one path segment: for every input and every result of unescaping it, the
-- name has no backslash, no slash, no "_" and no space, no two dots in a row, and no two dashes in
-- a row (the fuel of the loop, the length of the text, is enough).
pub normalize_team_id-IsPlain :
    (path_unescape : Text → Option Text) (raw : Text)
    → All IsPlain (normalize_team_id path_unescape raw)
      × (contains_pair 46 (normalize_team_id path_unescape raw) ≡ false)
      × (contains_pair 45 (normalize_team_id path_unescape raw) ≡ false)
unfolding normalize_team_id
normalize_team_id-IsPlain path_unescape raw =
    let value = trim_space raw in
    let split = replace_separators (to_lower (or_same (path_unescape value) value)) in
    (
      reject_path-All _ (clean-All split (replace_separators-All _)),
      reject_path-pair (clean split),
      reject_path-keeps 45 _ (clean-pair split),
    )
