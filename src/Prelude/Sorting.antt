-- ===== src/Prelude/Sorting.antt =====
-- `sort.SliceStable` with a comparison: a stable sort by insertion.
use Prim.Native.Nat.{suc}
use mathlib.Core.Path.{◌≡◌, refl}
use mathlib.Core.Bool.{Bool, true, false}
use mathlib.Core.List.{List, [], ◌∷◌, Memᴰ}
use native.Mathlib.Omega.{arith}
use mathlib.Core.Logic.{inl, inr}
use ai_p2p.Prelude.Tests.{if◌then◌else◌, Bool-cases}
use ai_p2p.Prelude.Lists.{length, All}

module _ {ℓ} {A : Type ℓ} (before : A → A → Bool) where
  -- An element goes after those that come strictly before it.
  unfoldable pub insert_sorted : A → List A → List A
  insert_sorted x [] = x ∷ []
  insert_sorted x (y ∷ ys) =
      let rest = insert_sorted x ys in if before y x then y ∷ rest else x ∷ y ∷ ys

  unfoldable pub sort_stable : List A → List A
  sort_stable [] = []
  sort_stable (x ∷ xs) = insert_sorted x (sort_stable xs)

  pub insert_sorted-All {κ} :
      (P : A → Type κ) (x : A) (xs : List A) → P x → All P xs → All P (insert_sorted x xs)
  unfolding insert_sorted
  insert_sorted-All P x [] p h = (p, tt)
  insert_sorted-All P x (y ∷ ys) p h = ground (arith, insert_sorted-All P x ys p h.1)

  pub sort_stable-All {κ} : (P : A → Type κ) (xs : List A) → All P xs → All P (sort_stable xs)
  unfolding sort_stable
  sort_stable-All P [] h = tt
  sort_stable-All P (x ∷ xs) h =
      insert_sorted-All P x (sort_stable xs) h.0 (sort_stable-All P xs h.1)

  mem-insert_sorted : (a x : A) (xs : List A) → Memᴰ a (x ∷ xs) → Memᴰ a (insert_sorted x xs)
  unfolding insert_sorted
  mem-insert_sorted a x [] m = m
  mem-insert_sorted a x (y ∷ ys) m = elim (Bool-cases (before y x)) [
    | inr here ↦ rw here m
    | inl later ↦ rw later (moved (λ n. mem-insert_sorted a x ys n) m)
  ]
    where
      moved :
          (Memᴰ a (x ∷ ys) → Memᴰ a (insert_sorted x ys))
          → Memᴰ a (x ∷ y ∷ ys)
          → Memᴰ a (y ∷ insert_sorted x ys)
      moved f (Memᴰ.head e) = Memᴰ.tail (f (Memᴰ.head e))
      moved f (Memᴰ.tail (Memᴰ.head e)) = Memᴰ.head e
      moved f (Memᴰ.tail (Memᴰ.tail t)) = Memᴰ.tail (f (Memᴰ.tail t))

  -- Sorting loses no element.
  pub mem-sort_stable : (a : A) (xs : List A) → Memᴰ a xs → Memᴰ a (sort_stable xs)
  unfolding sort_stable
  mem-sort_stable a [] m = m
  mem-sort_stable a (x ∷ xs) (Memᴰ.head e) = mem-insert_sorted a x (sort_stable xs) (Memᴰ.head e)
  mem-sort_stable a (x ∷ xs) (Memᴰ.tail t) =
      mem-insert_sorted a x (sort_stable xs) (Memᴰ.tail (mem-sort_stable a xs t))

  length-insert_sorted : (x : A) (xs : List A) → length (insert_sorted x xs) ≡ suc (length xs)
  unfolding insert_sorted
  length-insert_sorted x [] = refl
  length-insert_sorted x (y ∷ ys) = ground (arith, length-insert_sorted x ys)

  pub length-sort_stable : (xs : List A) → length (sort_stable xs) ≡ length xs
  unfolding sort_stable
  length-sort_stable [] = refl
  length-sort_stable (x ∷ xs) =
      ground (arith, length-insert_sorted x (sort_stable xs), length-sort_stable xs)

  -- No later element comes strictly before an earlier one.
  abbrev pub IsSorted : List A → Type ℓ
  IsSorted [] = Unit
  IsSorted (x ∷ xs) = All (λ y. before y x ≡ false) xs × IsSorted xs

  module _ (asym : (a b : A) → before a b ≡ true → before b a ≡ false)
      (trans : (a b c : A) → before a b ≡ false → before b c ≡ false → before a c ≡ false) where
    All-trans :
        (x y : A) (ys : List A)
        → before y x ≡ false
        → All (λ z. before z y ≡ false) ys
        → All (λ z. before z x ≡ false) ys
    All-trans x y [] e h = tt
    All-trans x y (z ∷ ys) e h = (trans z y x h.0 e, All-trans x y ys e h.1)

    insert_sorted-IsSorted : (x : A) (xs : List A) → IsSorted xs → IsSorted (insert_sorted x xs)
    unfolding insert_sorted
    insert_sorted-IsSorted x [] h = (tt, tt)
    insert_sorted-IsSorted x (y ∷ ys) h = elim (Bool-cases (before y x)) [
      | inl later ↦ rw later (
        insert_sorted-All (λ z. before z y ≡ false) x ys (asym y x later) h.0,
        insert_sorted-IsSorted x ys h.1,
      )
      | inr here ↦ rw here ((here, All-trans x y ys here h.0), h)
    ]

    pub sort_stable-IsSorted : (xs : List A) → IsSorted (sort_stable xs)
    unfolding sort_stable
    sort_stable-IsSorted [] = tt
    sort_stable-IsSorted (x ∷ xs) =
        insert_sorted-IsSorted x (sort_stable xs) (sort_stable-IsSorted xs)
