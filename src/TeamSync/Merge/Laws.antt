-- ===== src/TeamSync/Merge/Laws.antt =====
-- What is found under a key after a merge (internal/aip2p/team_sync.go: `mergeTeamSyncPeerAckState`,
-- `mergeTeamSyncConflictState`).
use ai_p2p.Prelude.{
  [], ◌∷◌, ◌≡◌, refl, ◌∙◌, Bool, Option, none, some, if◌then◌else◌, inl, inr, false, Bool-cases,
}
use mathlib.Core.Path.{subst}
use ai_p2p.Text.{Text, text_eq}
use ai_p2p.Text.Laws.{text_eq_iff}
use ai_p2p.TextMap.{TextMap, lookup}
use ai_p2p.TextMap.Laws.{IsDistinct, lookup-insert, lookup-insert_self, insert-IsDistinct}
use ai_p2p.TeamSync.Merge.{merge_entries, merge_entry}

module _ {ℓ} {V : Type ℓ} (is_better : V → V → Bool) where
  -- The merge of what is found on both sides.
  abbrev pub better : Option V → Option V → Option V
  better current none = current
  better none (some incoming) = some incoming
  better (some current) (some incoming) =
      if is_better current incoming then some incoming else some current

  lookup-merge_entry_self :
      (k : Text) (v : V) (o : Option V) (dst : TextMap V)
      → lookup k dst ≡ o
      → lookup k (merge_entry is_better k v o dst) ≡ better o (some v)
  lookup-merge_entry_self k v none dst e = lookup-insert_self k v dst
  lookup-merge_entry_self k v (some c) dst e = elim (Bool-cases (is_better c v)) [
    | inl yes_better ↦ rw yes_better (lookup-insert_self k v dst)
    | inr no_better ↦ rw no_better e
  ]

  lookup-merge_entry_other :
      (k j : Text) (v : V) (o : Option V) (dst : TextMap V)
      → text_eq j k ≡ false
      → lookup k (merge_entry is_better j v o dst) ≡ lookup k dst
  lookup-merge_entry_other k j v none dst h = rw (lookup-insert j k v dst, h) refl
  lookup-merge_entry_other k j v (some c) dst h = elim (Bool-cases (is_better c v)) [
    | inl yes_better ↦ rw (yes_better, lookup-insert j k v dst, h) refl
    | inr no_better ↦ rw no_better refl
  ]

  -- A merge finds the better one of what its two maps have.
  pub lookup-merge_entries :
      (k : Text) (dst src : TextMap V)
      → IsDistinct src
      → lookup k (merge_entries is_better dst src) ≡ better (lookup k dst) (lookup k src)
  unfolding merge_entries lookup
  lookup-merge_entries k dst [] d = refl
  lookup-merge_entries k dst ((j, v) ∷ src) d = elim (Bool-cases (text_eq j k)) [
    | inl e ↦
        lookup-merge_entries k (merge_entry is_better j v (lookup j dst) dst) src d.1
        ∙ rw (subst (λ i. lookup i src ≡ none) ((text_eq_iff j k).0 e) d.0, e)
            (subst
              (λ i.
                lookup i (merge_entry is_better j v (lookup j dst) dst)
                ≡ better (lookup i dst) (some v))
              ((text_eq_iff j k).0 e) (lookup-merge_entry_self j v (lookup j dst) dst refl))
    | inr e ↦
        lookup-merge_entries k (merge_entry is_better j v (lookup j dst) dst) src d.1
        ∙ rw (lookup-merge_entry_other k j v (lookup j dst) dst e, e) refl
  ]

  merge_entry-IsDistinct :
      (k : Text) (v : V) (o : Option V) (dst : TextMap V)
      → IsDistinct dst
      → IsDistinct (merge_entry is_better k v o dst)
  merge_entry-IsDistinct k v none dst d = insert-IsDistinct k v dst d
  merge_entry-IsDistinct k v (some c) dst d = elim (Bool-cases (is_better c v)) [
    | inl yes_better ↦ rw yes_better (insert-IsDistinct k v dst d)
    | inr no_better ↦ rw no_better d
  ]

  pub merge_entries-IsDistinct :
      (dst src : TextMap V) → IsDistinct dst → IsDistinct (merge_entries is_better dst src)
  unfolding merge_entries
  merge_entries-IsDistinct dst [] d = d
  merge_entries-IsDistinct dst ((k, v) ∷ src) d =
      merge_entries-IsDistinct (merge_entry is_better k v (lookup k dst) dst) src
        (merge_entry-IsDistinct k v (lookup k dst) dst d)
