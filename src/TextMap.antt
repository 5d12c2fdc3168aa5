-- ===== src/TextMap.antt =====
-- Go's `map[string]V` as an association list in the order in which `range` visits the entries. A
-- `nil` map and an empty one are the same list: the program only reads lengths and entries.
pub mod Laws
pub mod Rebuild
use ai_p2p.Prelude.{
  Bool, true, false, not, List, [], ◌∷◌, Option, none, some, if◌then◌else◌, keep, map,
}
use ai_p2p.Text.{Text, text_eq}

abbrev pub TextMap {ℓ} : Type ℓ → Type ℓ
TextMap V = List (Text × V)

module _ {ℓ} {V : Type ℓ} where
  -- `value, ok := m[k]`.
  unfoldable pub lookup : Text → TextMap V → Option V
  lookup k [] = none
  lookup k ((j, v) ∷ m) = let rest = lookup k m in if text_eq j k then some v else rest

  -- `m[k] = v`.
  unfoldable pub insert : Text → V → TextMap V → TextMap V
  insert k v [] = (k, v) ∷ []
  insert k v ((j, w) ∷ m) =
      let rest = insert k v m in if text_eq j k then (j, v) ∷ m else (j, w) ∷ rest

  -- `delete(m, k)`.
  unfoldable pub delete : Text → TextMap V → TextMap V
  unfolding keep
  delete k m = keep (λ e. not (text_eq e.0 k)) m

  abbrev pub assign : Option (Text × V) → TextMap V → TextMap V
  assign none out = out
  assign (some (k, v)) out = insert k v out

-- `for k, v := range m { ...; out[k'] = v' }`, where the body may `continue`, which is `none`.
unfoldable pub rebuild {ℓ κ} :
    {V : Type ℓ} {W : Type κ} → (Text → V → Option (Text × W)) → TextMap W → TextMap V → TextMap W
rebuild body out [] = out
rebuild body out ((k, v) ∷ m) = rebuild body (assign (body k v) out) m
