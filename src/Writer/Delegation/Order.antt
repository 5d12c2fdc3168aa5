-- ===== src/Writer/Delegation/Order.antt =====
-- The sort of `ActiveDelegationFor` by creation times, which the code compares as texts.
use ai_p2p.Prelude.{
  true, false, List, [], ◌∷◌, ◌≡◌, refl, inl, inr, if◌then◌else◌, Bool-cases, arith, All, Memᴰ,
  some, none, ap, sym, ◌++◌, Option-cases, eq_of_some, ◌↔◌,
}
use mathlib.Core.Path.{subst}
use ai_p2p.Text.{Text, text_lt}
use ai_p2p.Writer.Delegation.{WriterDelegation, insert_newest, sort_newest, first}

text_lt_irrefl : (s : Text) → text_lt s s ≡ false
unfolding text_lt
text_lt_irrefl [] = refl
text_lt_irrefl (c ∷ s) = ground (arith, text_lt_irrefl s)

text_lt_asymm : (s t : Text) → text_lt s t ≡ true → text_lt t s ≡ false
unfolding text_lt
text_lt_asymm [] [] h = refl
text_lt_asymm [] (d ∷ t) h = refl
text_lt_asymm (c ∷ s) [] h = cc
text_lt_asymm (c ∷ s) (d ∷ t) h = ground (arith, text_lt_asymm s t)

-- Of three texts, if the middle is not below the first and the last is not below the middle, then
-- the last is not below the first.
text_lt_trans_not : (s t u : Text) → text_lt t s ≡ false → text_lt u t ≡ false → text_lt u s ≡ false
unfolding text_lt
text_lt_trans_not [] [] [] h k = refl
text_lt_trans_not [] [] (e ∷ u) h k = refl
text_lt_trans_not [] (d ∷ t) [] h k = cc
text_lt_trans_not [] (d ∷ t) (e ∷ u) h k = refl
text_lt_trans_not (c ∷ s) [] [] h k = cc
text_lt_trans_not (c ∷ s) [] (e ∷ u) h k = cc
text_lt_trans_not (c ∷ s) (d ∷ t) [] h k = cc
text_lt_trans_not (c ∷ s) (d ∷ t) (e ∷ u) h k = ground (arith, text_lt_trans_not s t u)

-- No delegation of the list was created after this one, by the text of its time.
abbrev pub IsNewest : WriterDelegation → List WriterDelegation → Type 0
IsNewest d ds = All (λ e. text_lt d.created_at e.created_at ≡ false) ds

IsNewest-trans :
    (d e : WriterDelegation) (ds : List WriterDelegation)
    → text_lt d.created_at e.created_at ≡ false
    → IsNewest e ds
    → IsNewest d ds
IsNewest-trans d e [] h n = tt
IsNewest-trans d e (c ∷ ds) h (k, n) =
    (text_lt_trans_not c.created_at e.created_at d.created_at k h, IsNewest-trans d e ds h n)

IsNewest-append :
    (d : WriterDelegation) (xs ys : List WriterDelegation)
    → IsNewest d xs
    → IsNewest d ys
    → IsNewest d (xs ++ ys)
IsNewest-append d [] ys hx hy = hy
IsNewest-append d (x ∷ xs) ys hx hy = (hx.0, IsNewest-append d xs ys hx.1 hy)

-- Older, by the text of its time.
abbrev pub IsOlder : WriterDelegation → List WriterDelegation → Type 0
IsOlder d es = All (λ e. text_lt e.created_at d.created_at ≡ true) es

IsNewest-of_IsOlder :
    (d : WriterDelegation) (es : List WriterDelegation) → IsOlder d es → IsNewest d es
IsNewest-of_IsOlder d [] h = tt
IsNewest-of_IsOlder d (e ∷ es) (p, h) =
    (text_lt_asymm e.created_at d.created_at p, IsNewest-of_IsOlder d es h)

-- The first of the newest: all before it are older, and none after it is newer.
pub record IsFirstNewest (d : WriterDelegation) (ds : List WriterDelegation) : Type 0 where
  pub before : List WriterDelegation
  pub after : List WriterDelegation
  pub split : ds ≡ before ++ (d ∷ after)
  pub older : IsOlder d before
  pub newest : IsNewest d after

pub IsFirstNewest-IsNewest :
    (d : WriterDelegation) (ds : List WriterDelegation) → IsFirstNewest d ds → IsNewest d ds
IsFirstNewest-IsNewest d ds f = rw f.split (
    IsNewest-append d f.before (d ∷ f.after) (IsNewest-of_IsOlder d f.before f.older)
      (text_lt_irrefl d.created_at, f.newest))

first-insert_newest :
    (d : WriterDelegation) (l : List WriterDelegation)
    → first (insert_newest d l) ≡ elim (first l) [
      | none ↦ some d
      | some e ↦ if text_lt d.created_at e.created_at then some e else some d
    ]
unfolding insert_newest
first-insert_newest d [] = refl
first-insert_newest d (e ∷ l) = ground arith

push_front :
    (d h : WriterDelegation) (ds : List WriterDelegation)
    → text_lt d.created_at h.created_at ≡ true
    → IsFirstNewest h ds
    → IsFirstNewest h (d ∷ ds)
push_front d h ds lt f = record {
  before = d ∷ f.before;
  after = f.after;
  split = ap (λ r. d ∷ r) f.split;
  older = (lt, f.older);
  newest = f.newest;
}

take_front :
    (d : WriterDelegation) (ds : List WriterDelegation) → IsNewest d ds → IsFirstNewest d (d ∷ ds)
take_front d ds n = record { before = []; after = ds; split = refl; older = tt; newest = n }

-- A list that is not empty has a newest element.
pub first-sort_newest-eq-none_iff :
    (ds : List WriterDelegation) → (first (sort_newest ds) ≡ none) ↔ (ds ≡ [])
unfolding sort_newest
first-sort_newest-eq-none_iff [] = ground arith
first-sort_newest-eq-none_iff (d ∷ ds) = ground (arith, first-insert_newest d (sort_newest ds))

-- Nothing is newer where there is nothing.
IsNewest-of_no_first :
    (d : WriterDelegation) (ds : List WriterDelegation)
    → first (sort_newest ds) ≡ none
    → IsNewest d ds
IsNewest-of_no_first d ds h = subst (IsNewest d) (sym ((first-sort_newest-eq-none_iff ds).0 h)) tt

-- The head of the sorted list is the first of the newest of the list.
pub first-sort_newest :
    (ds : List WriterDelegation) (d : WriterDelegation)
    → first (sort_newest ds) ≡ some d
    → IsFirstNewest d ds
unfolding sort_newest
first-sort_newest [] d h = cc
first-sort_newest (e ∷ ds) d h = elim (Option-cases (first (sort_newest ds))) [
  | inl empty ↦
      let same : some e ≡ some d = rw (first-insert_newest e (sort_newest ds), empty) at h in
      subst (λ x. IsFirstNewest x (e ∷ ds)) (eq_of_some same)
        (take_front e ds (IsNewest-of_no_first e ds empty))
  | inr (c, found) ↦ elim (Bool-cases (text_lt e.created_at c.created_at)) [
    | inl lt ↦
        let same : some c ≡ some d = rw (first-insert_newest e (sort_newest ds), found, lt) at h in
        subst (λ x. IsFirstNewest x (e ∷ ds)) (eq_of_some same)
          (push_front e c ds lt (first-sort_newest ds c found))
    | inr ge ↦
        let same : some e ≡ some d = rw (first-insert_newest e (sort_newest ds), found, ge) at h in
        subst (λ x. IsFirstNewest x (e ∷ ds)) (eq_of_some same)
          (take_front e ds
            (IsNewest-trans e c ds ge (IsFirstNewest-IsNewest c ds (first-sort_newest ds c found))))
  ]
]

mem-append_mid :
    (d : WriterDelegation) (before after : List WriterDelegation) → Memᴰ d (before ++ (d ∷ after))
mem-append_mid d [] after = Memᴰ.head refl
mem-append_mid d (e ∷ before) after = Memᴰ.tail (mem-append_mid d before after)

pub IsFirstNewest-mem :
    (d : WriterDelegation) (ds : List WriterDelegation) → IsFirstNewest d ds → Memᴰ d ds
IsFirstNewest-mem d ds f = rw f.split (mem-append_mid d f.before f.after)
