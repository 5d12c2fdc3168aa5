-- ===== src/TextMap/Rebuild.antt =====
-- The loops that rebuild a map under new keys.
use ai_p2p.Prelude.{
  [], ◌∷◌, ◌++◌, ◌≡◌, refl, sym, ap, ◌∙◌, Option, none, some, arith, All, Memᴰ, inl, inr,
  Bool-cases,
}
use mathlib.Core.Path.{subst}
use mathlib.Core.List.{append-nil, append_assoc}
use ai_p2p.Text.{Text, text_eq}
use ai_p2p.Text.Laws.{text_eq_iff}
use ai_p2p.TextMap.{TextMap, lookup, insert, rebuild, assign}
use ai_p2p.TextMap.Laws.{
  lookup-insert, lookup-insert_self, IsDistinct, insert-IsDistinct, insert-All,
}

module _ {ℓ κ} {V : Type ℓ} {W : Type κ} (body : Text → V → Option (Text × W)) where
  assign-IsDistinct :
      (o : Option (Text × W)) (out : TextMap W) → IsDistinct out → IsDistinct (assign o out)
  assign-IsDistinct none out d = d
  assign-IsDistinct (some (k, v)) out d = insert-IsDistinct k v out d

  pub rebuild-IsDistinct :
      (out : TextMap W) (m : TextMap V) → IsDistinct out → IsDistinct (rebuild body out m)
  unfolding rebuild
  rebuild-IsDistinct out [] d = d
  rebuild-IsDistinct out ((k, v) ∷ m) d =
      rebuild-IsDistinct (assign (body k v) out) m (assign-IsDistinct (body k v) out d)

  module _ {ι} (P : Text → W → Type ι)
      (step : (k : Text) (v : V) (k' : Text) (w : W) → body k v ≡ some (k', w) → P k' w) where
    assign-All :
        (k : Text) (v : V) (o : Option (Text × W)) (out : TextMap W)
        → body k v ≡ o
        → All (λ e. P e.0 e.1) out
        → All (λ e. P e.0 e.1) (assign o out)
    assign-All k v none out e h = h
    assign-All k v (some (k', w)) out e h = insert-All P k' w out (step k v k' w e) h

    pub rebuild-All :
        (out : TextMap W) (m : TextMap V)
        → All (λ e. P e.0 e.1) out
        → All (λ e. P e.0 e.1) (rebuild body out m)
    unfolding rebuild
    rebuild-All out [] h = h
    rebuild-All out ((k, v) ∷ m) h =
        rebuild-All (assign (body k v) out) m (assign-All k v (body k v) out refl h)

  -- An entry that is assigned to the key `j` carries the value `w`.
  abbrev pub Gives : Text → W → Option (Text × W) → Type κ
  Gives j w none = Unit
  Gives j w (some (k, v)) = k ≡ j → v ≡ w

  lookup-assign :
      (j : Text) (w : W) (o : Option (Text × W)) (out : TextMap W)
      → Gives j w o
      → lookup j out ≡ some w
      → lookup j (assign o out) ≡ some w
  lookup-assign j w none out g h = h
  lookup-assign j w (some (k, v)) out g h = elim (Bool-cases (text_eq k j)) [
    | inl e ↦ rw (lookup-insert k j v out, e) (ap some (g ((text_eq_iff k j).0 e)))
    | inr e ↦ rw (lookup-insert k j v out, e) h
  ]

  lookup-rebuild_keep :
      (j : Text) (w : W) (out : TextMap W) (m : TextMap V)
      → All (λ e. Gives j w (body e.0 e.1)) m
      → lookup j out ≡ some w
      → lookup j (rebuild body out m) ≡ some w
  unfolding rebuild
  lookup-rebuild_keep j w out [] a h = h
  lookup-rebuild_keep j w out ((k, v) ∷ m) a h =
      lookup-rebuild_keep j w (assign (body k v) out) m a.1 (lookup-assign j w (body k v) out a.0 h)

  -- Where all entries that are assigned to `j` carry one value, in whatever order they are visited,
  -- that value is found under `j`.
  pub lookup-rebuild :
      (j : Text) (w : W) (out : TextMap W) (m : TextMap V) (k : Text) (v : V)
      → All (λ e. Gives j w (body e.0 e.1)) m
      → Memᴰ (k, v) m
      → body k v ≡ some (j, w)
      → lookup j (rebuild body out m) ≡ some w
  unfolding rebuild
  lookup-rebuild j w out [] k v a mem b = elim mem [ ]
  lookup-rebuild j w out ((i, u) ∷ m) k v a (Memᴰ.tail t) b =
      lookup-rebuild j w (assign (body i u) out) m k v a.1 t b
  lookup-rebuild j w out ((i, u) ∷ m) k v a (Memᴰ.head e) b =
      lookup-rebuild_keep j w (assign (body i u) out) m a.1 (
        subst (λ o. lookup j (assign o out) ≡ some w)
          (sym (subst (λ p. body p.0 p.1 ≡ some (j, w)) e b)) (lookup-insert_self j w out))

module _ {ℓ} {V : Type ℓ} (body : Text → V → Option (Text × V)) where
  insert-fresh :
      (k : Text) (v : V) (out : TextMap V)
      → lookup k out ≡ none
      → insert k v out ≡ out ++ (k, v) ∷ []
  unfolding insert lookup
  insert-fresh k v [] h = refl
  insert-fresh k v ((j, w) ∷ out) h = elim (Bool-cases (text_eq j k)) [
    | inl e ↦ cc (rw e at h)
    | inr e ↦ rw e (ap (λ r. (j, w) ∷ r) (insert-fresh k v out (rw e at h)))
  ]

  lookup_fresh :
      (k : Text) (v : V) (out R : TextMap V)
      → lookup k R ≡ none
      → All (λ e. lookup e.0 out ≡ none) R
      → All (λ e. lookup e.0 (insert k v out) ≡ none) R
  unfolding lookup
  lookup_fresh k v out [] h a = tt
  lookup_fresh k v out ((j, w) ∷ R) h a = elim (Bool-cases (text_eq j k)) [
    | inl e ↦ cc (rw e at h)
    | inr e ↦ (
      ground (arith, lookup-insert k j v out, text_eq_iff j k, text_eq_iff k j, a.0),
      lookup_fresh k v out R (rw e at h) a.1,
    )
  ]

  pub rebuild_fixed :
      (out R : TextMap V)
      → All (λ e. body e.0 e.1 ≡ some e) R
      → IsDistinct R
      → All (λ e. lookup e.0 out ≡ none) R
      → rebuild body out R ≡ out ++ R
  unfolding rebuild
  rebuild_fixed out [] f d a = sym (append-nil out)
  rebuild_fixed out ((k, v) ∷ R) f d a = rw f.0 (
      rebuild_fixed (insert k v out) R f.1 d.1 (lookup_fresh k v out R d.0 a.1)
      ∙ (ap (λ r. r ++ R) (insert-fresh k v out a.0) ∙ append_assoc out ((k, v) ∷ []) R))

  pub All-fresh : (R : TextMap V) → All (λ e. lookup {V = V} e.0 [] ≡ none) R
  unfolding lookup
  All-fresh [] = tt
  All-fresh (e ∷ R) = (refl, All-fresh R)

  -- A loop whose body leaves what it has produced as it is, is idempotent.
  pub rebuild_idem :
      ((k : Text) (v : V) (k' : Text) (w : V) → body k v ≡ some (k', w) → body k' w ≡ some (k', w))
      → (m : TextMap V) → rebuild body [] (rebuild body [] m) ≡ rebuild body [] m
  rebuild_idem stable m =
      rebuild_fixed [] (rebuild body [] m)
        (rebuild-All body (λ k v. body k v ≡ some (k, v)) stable [] m tt)
        (rebuild-IsDistinct body [] m tt) (All-fresh (rebuild body [] m))
