-- ===== src/Writer/Lists/Laws.antt =====
-- Lemmas on `uniqueFold`, `containsFold`, `uniqueTrim` and `normalizeHexList`.
use ai_p2p.Prelude.{
  Bool, true, false, not, List, [], ◌∷◌, ◌≡◌, refl, sym, ap, ◌∙◌, inl, inr, is_nil, any, ◌||◌, ◌&&◌,
  Bool-cases, arith, All,
}
use ai_p2p.Text.{Text, text_eq, trim_space, to_lower, contains, equal_fold}
use ai_p2p.Text.Laws.{text_eq_iff, trim_space_idem, trim_space-to_lower, contains-cons}
use ai_p2p.Writer.Modes.{normalize_fold_key}
use ai_p2p.Writer.Modes.Laws.{normalize_fold_key_idem}
use ai_p2p.Writer.Lists.{
  unique_loop, unique_fold, unique_trim, fold_keys, normalize_hex_list, contains_fold,
}

-- Trimmed items with keys that are new and distinct.
abbrev IsFresh : (Text → Text) → List Text → List Text → Type 0
IsFresh key seen [] = Unit
IsFresh key seen (item ∷ items) =
    (trim_space item ≡ item)
    × (is_nil item ≡ false)
    × (contains seen (key item) ≡ false)
    × IsFresh key (key item ∷ seen) items

unique_loop-IsFresh :
    (key : Text → Text) (seen items : List Text) → IsFresh key seen (unique_loop key seen items)
unfolding unique_loop
unique_loop-IsFresh key seen [] = tt
unique_loop-IsFresh key seen (raw ∷ items) = elim (Bool-cases (is_nil (trim_space raw))) [
  | inl e ↦ rw e (unique_loop-IsFresh key seen items)
  | inr e ↦ elim (Bool-cases (contains seen (key (trim_space raw)))) [
    | inl old ↦ rw (e, old) (unique_loop-IsFresh key seen items)
    | inr new ↦
        rw (e, new)
          (trim_space_idem raw, e, new, unique_loop-IsFresh key (key (trim_space raw) ∷ seen) items)
  ]
]

unique_loop_of_IsFresh :
    (key : Text → Text) (seen items : List Text)
    → IsFresh key seen items
    → unique_loop key seen items ≡ items
unfolding unique_loop
unique_loop_of_IsFresh key seen [] h = refl
unique_loop_of_IsFresh key seen (item ∷ items) (trimmed, full, new, rest) =
    rw (trimmed, full, new)
      (ap (λ r. item ∷ r) (unique_loop_of_IsFresh key (key item ∷ seen) items rest))

pub unique_fold_idem : (items : List Text) → unique_fold (unique_fold items) ≡ unique_fold items
unfolding unique_fold
unique_fold_idem items =
    unique_loop_of_IsFresh to_lower [] (unique_loop to_lower [] items)
      (unique_loop-IsFresh to_lower [] items)

pub unique_trim_idem : (items : List Text) → unique_trim (unique_trim items) ≡ unique_trim items
unfolding unique_trim
unique_trim_idem items =
    unique_loop_of_IsFresh (λ item. item) [] (unique_loop (λ item. item) [] items)
      (unique_loop-IsFresh (λ item. item) [] items)

-- An id that a list names, in some spelling and spacing.
unfoldable pub names : List Text → Text → Bool
unfolding any
names items target =
    any (λ raw. not (is_nil (trim_space raw)) && equal_fold (trim_space raw) target) items

contains_of_eq :
    (seen : List Text) (s t : Text) → text_eq s t ≡ true → contains seen s ≡ contains seen t
contains_of_eq seen s t h = ap (contains seen) ((text_eq_iff s t).0 h)

-- What has been seen is found in the rest of the list or was seen before.
names-unique_loop :
    (seen items : List Text) (target : Text)
    → (contains_fold (unique_loop to_lower seen items) target || contains seen (to_lower target))
      ≡ (names items target || contains seen (to_lower target))
unfolding unique_loop names contains_fold any equal_fold
names-unique_loop seen [] target = refl
names-unique_loop seen (raw ∷ items) target = ground (
  arith,
  names-unique_loop seen items target,
  names-unique_loop (to_lower (trim_space raw) ∷ seen) items target,
  contains-cons (to_lower (trim_space raw)) seen (to_lower target),
  contains_of_eq seen (to_lower (trim_space raw)) (to_lower target),
)

contains-nil : (s : Text) → contains [] s ≡ false
unfolding contains any
contains-nil s = refl

-- Looking a name up, ignoring case, in a list rebuilt by `uniqueFold` finds it exactly where some
-- item of the original list is not blank and, once trimmed, equals the name up to case.
pub contains_fold-unique_fold :
    (items : List Text) (target : Text)
    → contains_fold (unique_fold items) target ≡ names items target
unfolding unique_fold
contains_fold-unique_fold items target =
    ground (arith, names-unique_loop [] items target, contains-nil (to_lower target))

-- Trimmed and lower-cased, and not empty.
abbrev IsFolded : Text → Type 0
IsFolded item = (normalize_fold_key item ≡ item) × (is_nil item ≡ false)

fold_keys-IsFolded : (items : List Text) → All IsFolded (fold_keys items)
unfolding fold_keys
fold_keys-IsFolded [] = tt
fold_keys-IsFolded (raw ∷ items) = elim (Bool-cases (is_nil (normalize_fold_key raw))) [
  | inl e ↦ rw e (fold_keys-IsFolded items)
  | inr e ↦ rw e ((normalize_fold_key_idem raw, e), fold_keys-IsFolded items)
]

fold_keys_of_IsFolded : (items : List Text) → All IsFolded items → fold_keys items ≡ items
unfolding fold_keys
fold_keys_of_IsFolded [] h = refl
fold_keys_of_IsFolded (item ∷ items) ((e, n), h) =
    rw (e, n) (ap (λ r. item ∷ r) (fold_keys_of_IsFolded items h))

trim_space_of_IsFolded : (item : Text) → IsFolded item → trim_space item ≡ item
unfolding normalize_fold_key
trim_space_of_IsFolded item (e, n) =
    ap trim_space (sym e)
    ∙ trim_space-to_lower (trim_space item)
    ∙ ap to_lower (trim_space_idem item)
    ∙ e

unique_loop-IsFolded :
    (seen items : List Text) → All IsFolded items → All IsFolded (unique_loop to_lower seen items)
unfolding unique_loop
unique_loop-IsFolded seen [] h = tt
unique_loop-IsFolded seen (raw ∷ items) (p, h) =
    rw (trim_space_of_IsFolded raw p, p.1)
      (elim (Bool-cases (contains seen (to_lower raw))) [
        | inl old ↦ rw old (unique_loop-IsFolded seen items h)
        | inr new ↦ rw new (p, unique_loop-IsFolded (to_lower raw ∷ seen) items h)
      ])

pub normalize_hex_list_idem :
    (items : List Text) → normalize_hex_list (normalize_hex_list items) ≡ normalize_hex_list items
unfolding normalize_hex_list
normalize_hex_list_idem items =
    ap unique_fold (
      fold_keys_of_IsFolded (unique_fold (fold_keys items)) (
        unfold unique_fold in unique_loop-IsFolded [] (fold_keys items) (fold_keys-IsFolded items)))
    ∙ unique_fold_idem (fold_keys items)
