-- ===== src/TeamSync/Compact/Laws.antt =====
-- What is found under a key after the loops of the compaction (internal/aip2p/team_sync.go:
-- `compactTeamSyncState`).
use ai_p2p.Prelude.{
  All, Option-cases, [], ◌∷◌, ◌≡◌, refl, ◌∙◌, Option, none, some, inl, inr, true, false, Bool-cases,
  Option-cases, eq_of_some,
}
use mathlib.Core.Path.{subst}
use ai_p2p.Text.{Text, text_eq}
use ai_p2p.Text.Laws.{text_eq_iff}
use ai_p2p.TextMap.{TextMap, lookup}
use ai_p2p.TextMap.Laws.{IsDistinct}
use ai_p2p.TeamSync.Compact.{rewrite_entries, keep_entry}

-- What the loop makes of an entry that is there.
abbrev pub found {ℓ} : {V : Type ℓ} → (V → Option V) → Option V → Option V
found f none = none
found f (some v) = f v

module _ {ℓ} {V : Type ℓ} (f : Text → V → Option V) where
  lookup-keep_entry :
      (k j : Text) (o : Option V) (m : TextMap V)
      → text_eq j k ≡ false
      → lookup k (keep_entry j o m) ≡ lookup k m
  unfolding lookup
  lookup-keep_entry k j none m h = refl
  lookup-keep_entry k j (some w) m h = rw h refl

  -- An entry that is not there is not made.
  lookup-rewrite-none :
      (k : Text) (m : TextMap V) → lookup k m ≡ none → lookup k (rewrite_entries f m) ≡ none
  unfolding rewrite_entries lookup
  lookup-rewrite-none k [] h = refl
  lookup-rewrite-none k ((j, v) ∷ m) h = elim (Bool-cases (text_eq j k)) [
    | inl e ↦ cc (rw e at h)
    | inr e ↦
        lookup-keep_entry k j (f j v) (rewrite_entries f m) e ∙ lookup-rewrite-none k m (rw e at h)
  ]

  lookup-keep_entry_self :
      (k j : Text) (o : Option V) (m : TextMap V)
      → text_eq j k ≡ true
      → lookup k m ≡ none
      → lookup k (keep_entry j o m) ≡ o
  unfolding lookup
  lookup-keep_entry_self k j none m e h = h
  lookup-keep_entry_self k j (some w) m e h = rw e refl

  -- In a map, where no key stands twice, the loop rewrites what is found.
  pub lookup-rewrite_entries :
      (k : Text) (m : TextMap V)
      → IsDistinct m
      → lookup k (rewrite_entries f m) ≡ found (f k) (lookup k m)
  unfolding rewrite_entries lookup
  lookup-rewrite_entries k [] d = refl
  lookup-rewrite_entries k ((j, v) ∷ m) d = elim (Bool-cases (text_eq j k)) [
    | inl e ↦
        rw
          (
            lookup-keep_entry_self k j (f j v) (rewrite_entries f m) e (
                lookup-rewrite-none k m
                  (subst (λ i. lookup i m ≡ none) ((text_eq_iff j k).0 e) d.0)),
            e,
          )
          (cc ((text_eq_iff j k).0 e))
    | inr e ↦
        rw (lookup-keep_entry k j (f j v) (rewrite_entries f m) e, e)
          (lookup-rewrite_entries k m d.1)
  ]

  -- An entry that the loop keeps is found as it has left it.
  pub lookup-rewrite_kept :
      (k : Text) (m : TextMap V) {v w : V}
      → lookup k m ≡ some v
      → f k v ≡ some w
      → lookup k (rewrite_entries f m) ≡ some w
  unfolding rewrite_entries lookup
  lookup-rewrite_kept k [] {v = v} {w = w} h e = cc
  lookup-rewrite_kept k ((j, u) ∷ m) {v = v} {w = w} h e = elim (Bool-cases (text_eq j k)) [
    | inl same ↦ found_first same (cc (e, (text_eq_iff j k).0 same, eq_of_some (rw same at h)))
    | inr other ↦
        lookup-keep_entry k j (f j u) (rewrite_entries f m) other
        ∙ lookup-rewrite_kept k m (rw other at h) e
  ]
    where
      found_first :
          text_eq j k ≡ true
          → f j u ≡ some w
          → lookup k (keep_entry j (f j u) (rewrite_entries f m)) ≡ some w
      found_first same e = rw (e, same) refl

  pub rewrite_entries-IsDistinct : (m : TextMap V) → IsDistinct m → IsDistinct (rewrite_entries f m)
  unfolding rewrite_entries
  rewrite_entries-IsDistinct [] d = tt
  rewrite_entries-IsDistinct ((k, v) ∷ m) d =
      kept (f k v) (lookup-rewrite-none k m d.0) (rewrite_entries-IsDistinct m d.1)
    where
      kept :
          (o : Option V)
          → lookup k (rewrite_entries f m) ≡ none
          → IsDistinct (rewrite_entries f m)
          → IsDistinct (keep_entry k o (rewrite_entries f m))
      kept none n d = d
      kept (some w) n d = (n, d)

-- What holds of every value that the body of the loop keeps holds of every entry.
pub rewrite_entries-All {ℓ κ} :
    {V : Type ℓ} (P : Text → V → Type κ) (f : Text → V → Option V)
    → ((k : Text) (v w : V) → f k v ≡ some w → P k w)
    → (m : TextMap V) → All (λ e. P e.0 e.1) (rewrite_entries f m)
unfolding rewrite_entries
rewrite_entries-All P f step [] = tt
rewrite_entries-All P f step ((k, v) ∷ m) = elim (Option-cases (f k v)) [
  | inl gone ↦ rw gone (rewrite_entries-All P f step m)
  | inr (w, kept) ↦ rw kept (step k v w kept, rewrite_entries-All P f step m)
]

-- What holds of every entry, and is kept by the loop's body, holds of every entry after the loop.
pub rewrite_entries-All_of {ℓ κ} :
    {V : Type ℓ} (P : Text → V → Type κ) (f : Text → V → Option V)
    → ((k : Text) (v w : V) → P k v → f k v ≡ some w → P k w)
    → (m : TextMap V) → All (λ e. P e.0 e.1) m
    → All (λ e. P e.0 e.1) (rewrite_entries f m)
unfolding rewrite_entries
rewrite_entries-All_of P f step [] h = tt
rewrite_entries-All_of P f step ((k, v) ∷ m) h = elim (Option-cases (f k v)) [
  | inl gone ↦ rw gone (rewrite_entries-All_of P f step m h.1)
  | inr (w, kept) ↦ rw kept (step k v w h.0 kept, rewrite_entries-All_of P f step m h.1)
]
