-- ===== src/Prelude/Lists.antt =====
-- Lists measured by native numbers, and a predicate on every element.
use Prim.Native.Nat.{ℕ, suc, ◌≤◌}
use mathlib.Core.Path.{◌≡◌, refl, sym, subst}
use mathlib.Core.Logic.{◌⊎◌, inl, inr}
use mathlib.Core.Bool.{Bool, true, false, ◌||◌}
use mathlib.Core.List.{List, [], ◌∷◌, ◌++◌, Memᴰ}
use native.Mathlib.Omega.{arith}
use ai_p2p.Prelude.Tests.{if◌then◌else◌, Bool-cases}

abbrev pub length {ℓ} : {A : Type ℓ} → List A → ℕ
length [] = 0
length (x ∷ xs) = suc (length xs)

abbrev pub is_nil {ℓ} : {A : Type ℓ} → List A → Bool
is_nil [] = true
is_nil (x ∷ xs) = false

-- A predicate by recursion computes to tuples, which the tactics read and build.
abbrev pub All {ℓ κ} : {A : Type ℓ} → (A → Type κ) → List A → Type κ
All P [] = Unit
All P (x ∷ xs) = P x × All P xs

-- A Boolean test passes at some element, as a loop with an early return finds it.
unfoldable pub any {ℓ} : {A : Type ℓ} → (A → Bool) → List A → Bool
any p [] = false
any p (x ∷ xs) = p x || any p xs

pub any-append {ℓ} :
    {A : Type ℓ} (p : A → Bool) (xs ys : List A) → any p (xs ++ ys) ≡ (any p xs || any p ys)
unfolding any
any-append p [] ys = refl
any-append p (x ∷ xs) ys = ground (arith, any-append p xs ys)

-- A test that implies another finds no more.
pub any-imp {ℓ} :
    {A : Type ℓ} (p q : A → Bool) (xs : List A)
    → ((x : A) → p x ≡ true → q x ≡ true)
    → any p xs ≡ true
    → any q xs ≡ true
unfolding any
any-imp p q [] f h = h
any-imp p q (x ∷ xs) f h = elim (Bool-cases (p x)) [
  | inl passes ↦ rw (f x passes) refl
  | inr fails ↦
      let rest = any-imp p q xs f (rw fails at h) in
      elim (Bool-cases (q x)) [ inl e ↦ rw e refl | inr e ↦ rw (e, rest) refl ]
]

-- A loop that skips an element by `continue` unless a test passes.
unfoldable pub keep {ℓ} : {A : Type ℓ} → (A → Bool) → List A → List A
keep p [] = []
keep p (x ∷ xs) = let rest = keep p xs in if p x then x ∷ rest else rest

pub keep-All {ℓ} : {A : Type ℓ} (p : A → Bool) (xs : List A) → All (λ x. p x ≡ true) (keep p xs)
unfolding keep
keep-All p [] = tt
keep-All p (x ∷ xs) = ground (arith, keep-All p xs)

-- What is kept was in the list.
pub mem_of_mem-keep {ℓ} :
    {A : Type ℓ} (p : A → Bool) (xs : List A) (a : A) → Memᴰ a (keep p xs) → Memᴰ a xs
unfolding keep
mem_of_mem-keep p [] a m = m
mem_of_mem-keep p (x ∷ xs) a m = elim (Bool-cases (p x)) [
  | inl yes_p ↦ kept (mem_of_mem-keep p xs a) (rw yes_p at m)
  | inr no_p ↦ Memᴰ.tail (mem_of_mem-keep p xs a (rw no_p at m))
]
  where
    kept : (Memᴰ a (keep p xs) → Memᴰ a xs) → Memᴰ a (x ∷ keep p xs) → Memᴰ a (x ∷ xs)
    kept ih (Memᴰ.head e) = Memᴰ.head e
    kept ih (Memᴰ.tail t) = Memᴰ.tail (ih t)

-- What was in the list and passes the test is kept.
pub mem-keep {ℓ} :
    {A : Type ℓ} (p : A → Bool) (xs : List A) (a : A) → Memᴰ a xs → p a ≡ true → Memᴰ a (keep p xs)
unfolding keep
mem-keep p [] a m h = m
mem-keep p (x ∷ xs) a (Memᴰ.head e) h = rw (← e, h) (Memᴰ.head refl)
mem-keep p (x ∷ xs) a (Memᴰ.tail t) h = elim (Bool-cases (p x)) [
  | inl yes_p ↦ rw yes_p (Memᴰ.tail (mem-keep p xs a t h))
  | inr no_p ↦ rw no_p (mem-keep p xs a t h)
]

pub All-mem {ℓ κ} : {A : Type ℓ} (P : A → Type κ) (xs : List A) (a : A) → All P xs → Memᴰ a xs → P a
All-mem P [] a h m = elim m [ ]
All-mem P (x ∷ xs) a h (Memᴰ.head e) = subst P (sym e) h.0
All-mem P (x ∷ xs) a h (Memᴰ.tail t) = All-mem P xs a h.1 t

pub not-mem_of_eq_nil {ℓ} : {A : Type ℓ} (a : A) (xs : List A) → xs ≡ [] → ¬ Memᴰ a xs
not-mem_of_eq_nil a [] h m = elim m [ ]
not-mem_of_eq_nil a (x ∷ xs) h m = cc

-- Nothing is kept where no element passes.
pub keep-eq-nil {ℓ} :
    {A : Type ℓ} (p : A → Bool) (xs : List A) → ((a : A) → Memᴰ a xs → p a ≡ false) → keep p xs ≡ []
unfolding keep
keep-eq-nil p [] h = refl
keep-eq-nil p (x ∷ xs) h = rw (h x (Memᴰ.head refl)) (keep-eq-nil p xs (λ a m. h a (Memᴰ.tail m)))

pub All-of_mem {ℓ κ} :
    {A : Type ℓ} (P : A → Type κ) (xs : List A) → ((a : A) → Memᴰ a xs → P a) → All P xs
All-of_mem P [] h = tt
All-of_mem P (x ∷ xs) h = (h x (Memᴰ.head refl), All-of_mem P xs (λ a m. h a (Memᴰ.tail m)))

-- Where an element of two joined lists stands.
pub mem-append {ℓ} :
    {A : Type ℓ} (xs ys : List A) (a : A) → Memᴰ a (xs ++ ys) → Memᴰ a xs ⊎ Memᴰ a ys
mem-append [] ys a m = inr m
mem-append (x ∷ xs) ys a (Memᴰ.head e) = inl (Memᴰ.head e)
mem-append (x ∷ xs) ys a (Memᴰ.tail t) = elim (mem-append xs ys a t) [
  | inl left ↦ inl (Memᴰ.tail left)
  | inr right ↦ inr right
]

pub mem-append_left {ℓ} : {A : Type ℓ} (xs ys : List A) (a : A) → Memᴰ a xs → Memᴰ a (xs ++ ys)
mem-append_left [] ys a m = elim m [ ]
mem-append_left (x ∷ xs) ys a (Memᴰ.head e) = Memᴰ.head e
mem-append_left (x ∷ xs) ys a (Memᴰ.tail t) = Memᴰ.tail (mem-append_left xs ys a t)

pub length-keep {ℓ} : {A : Type ℓ} (p : A → Bool) (xs : List A) → length (keep p xs) ≤ length xs
unfolding keep
length-keep p [] = ground arith
length-keep p (x ∷ xs) = ground (arith, length-keep p xs)
