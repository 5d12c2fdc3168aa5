-- ===== src/TextMap/Laws.antt =====
-- Laws of a map's entries.
use ai_p2p.Prelude.{
  [], ◌∷◌, ◌≡◌, refl, none, some, if◌then◌else◌, arith, All, inl, inr, Bool-cases, keep,
}
use ai_p2p.Text.{Text, text_eq}
use ai_p2p.Text.Laws.{text_eq_iff, text_eq_refl}
use ai_p2p.TextMap.{TextMap, lookup, insert, delete}

module _ {ℓ} {V : Type ℓ} where
  pub lookup-insert :
      (k j : Text) (v : V) (m : TextMap V)
      → lookup j (insert k v m) ≡ (if text_eq k j then some v else lookup j m)
  unfolding lookup insert
  lookup-insert k j v [] = refl
  lookup-insert k j v ((i, w) ∷ m) =
      ground (arith, text_eq_iff k j, text_eq_iff i k, text_eq_iff i j, lookup-insert k j v m)

  pub lookup-insert_self : (k : Text) (v : V) (m : TextMap V) → lookup k (insert k v m) ≡ some v
  lookup-insert_self k v m = ground (arith, lookup-insert k k v m, text_eq_refl k)

  pub lookup-delete :
      (k j : Text) (m : TextMap V)
      → lookup j (delete k m) ≡ (if text_eq k j then none else lookup j m)
  unfolding lookup delete keep
  lookup-delete k j [] = ground arith
  lookup-delete k j ((i, w) ∷ m) =
      ground (arith, text_eq_iff k j, text_eq_iff i k, text_eq_iff i j, lookup-delete k j m)

  -- No key stands twice, as in every Go map.
  abbrev pub IsDistinct : TextMap V → Type ℓ
  IsDistinct [] = Unit
  IsDistinct ((k, v) ∷ m) = (lookup k m ≡ none) × IsDistinct m

  pub insert-IsDistinct :
      (k : Text) (v : V) (m : TextMap V) → IsDistinct m → IsDistinct (insert k v m)
  unfolding insert
  insert-IsDistinct k v [] d = (unfold lookup in refl, tt)
  insert-IsDistinct k v ((j, w) ∷ m) (fresh, d) = elim (Bool-cases (text_eq j k)) [
    | inl e ↦ rw e (fresh, d)
    | inr e ↦ rw e (
      ground (arith, lookup-insert k j v m, text_eq_iff j k, text_eq_iff k j),
      insert-IsDistinct k v m d,
    )
  ]

  pub insert-All {κ} :
      (P : Text → V → Type κ) (k : Text) (v : V) (m : TextMap V)
      → P k v
      → All (λ e. P e.0 e.1) m
      → All (λ e. P e.0 e.1) (insert k v m)
  unfolding insert
  insert-All P k v [] p h = (p, tt)
  insert-All P k v ((j, w) ∷ m) p h = elim (Bool-cases (text_eq j k)) [
    | inl e ↦ rw e (rw ((text_eq_iff j k).0 e) p, h.1)
    | inr e ↦ rw e (h.0, insert-All P k v m p h.1)
  ]
