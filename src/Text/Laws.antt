-- ===== src/Text/Laws.antt =====
-- Lemmas on the text operations.
use ai_p2p.Prelude.{
  ℕ, true, List, [], ◌∷◌, ◌≡◌, refl, ◌↔◌, arith, is_nil, leb, All, ◌++◌, false, any, eq_of_imp,
  ◌||◌, ap, ◌∙◌, sym,
}
use ai_p2p.Text.{
  Text, text_eq, is_space, lower, to_lower, trim_left, trim_right, trim_space, contains,
}

pub text_eq_iff : (s t : Text) → (text_eq s t ≡ true) ↔ (s ≡ t)
unfolding text_eq
text_eq_iff [] [] = ground arith
text_eq_iff [] (d ∷ t) = ground arith
text_eq_iff (c ∷ s) [] = ground arith
text_eq_iff (c ∷ s) (d ∷ t) = ground (arith, text_eq_iff s t)

pub text_eq_refl : (s : Text) → text_eq s s ≡ true
text_eq_refl s = (text_eq_iff s s).1 refl

lower_idem : (c : ℕ) → lower (lower c) ≡ lower c
unfolding lower
lower_idem c = ground arith

is_space-lower : (c : ℕ) → is_space (lower c) ≡ is_space c
unfolding lower is_space
is_space-lower c = ground arith

-- Neither of two equal tests needs the other's order of arguments.
pub text_eq_comm : (s t : Text) → text_eq s t ≡ text_eq t s
text_eq_comm s t =
    eq_of_imp (text_eq s t) (text_eq t s) (λ h. (text_eq_iff t s).1 (sym ((text_eq_iff s t).0 h)))
      (λ h. (text_eq_iff s t).1 (sym ((text_eq_iff t s).0 h)))

trim_left_idem : (s : Text) → trim_left (trim_left s) ≡ trim_left s
unfolding trim_left
trim_left_idem [] = refl
trim_left_idem (c ∷ s) = ground (arith, trim_left_idem s)

trim_right_idem : (s : Text) → trim_right (trim_right s) ≡ trim_right s
unfolding trim_right
trim_right_idem [] = refl
trim_right_idem (c ∷ s) = ground (arith, trim_right_idem s)

trim_left-trim_right : (s : Text) → trim_left (trim_right s) ≡ trim_right (trim_left s)
unfolding trim_left trim_right
trim_left-trim_right [] = refl
trim_left-trim_right (c ∷ s) = ground (arith, trim_left-trim_right s)

pub trim_space_idem : (s : Text) → trim_space (trim_space s) ≡ trim_space s
unfolding trim_space
trim_space_idem s =
    ap trim_right (trim_left-trim_right (trim_left s) ∙ ap trim_right (trim_left_idem s))
    ∙ trim_right_idem (trim_left s)

pub to_lower_idem : (s : Text) → to_lower (to_lower s) ≡ to_lower s
unfolding to_lower
to_lower_idem [] = refl
to_lower_idem (c ∷ s) = cc (lower_idem c, to_lower_idem s)

trim_left-to_lower : (s : Text) → trim_left (to_lower s) ≡ to_lower (trim_left s)
unfolding trim_left to_lower
trim_left-to_lower [] = refl
trim_left-to_lower (c ∷ s) = ground (arith, is_space-lower c, trim_left-to_lower s)

pub is_nil-to_lower : (s : Text) → is_nil (to_lower s) ≡ is_nil s
unfolding to_lower
is_nil-to_lower [] = refl
is_nil-to_lower (c ∷ s) = refl

trim_right-to_lower : (s : Text) → trim_right (to_lower s) ≡ to_lower (trim_right s)
unfolding trim_right to_lower
trim_right-to_lower [] = refl
trim_right-to_lower (c ∷ s) =
    rw (is_space-lower c, trim_right-to_lower s, is_nil-to_lower (trim_right s)) (ground arith)

pub trim_space-to_lower : (s : Text) → trim_space (to_lower s) ≡ to_lower (trim_space s)
unfolding trim_space
trim_space-to_lower s = ap trim_right (trim_left-to_lower s) ∙ trim_right-to_lower (trim_left s)

pub trim_space-nil : trim_space [] ≡ []
unfolding trim_space
trim_space-nil = refl

pub contains-cons :
    (i : Text) (items : List Text) (s : Text)
    → contains (i ∷ items) s ≡ (text_eq i s || contains items s)
unfolding contains any
contains-cons i items s = refl

pub fold_key_idem :
    (s : Text) → to_lower (trim_space (to_lower (trim_space s))) ≡ to_lower (trim_space s)
fold_key_idem s =
    ap to_lower (trim_space-to_lower (trim_space s))
    ∙ to_lower_idem (trim_space (trim_space s))
    ∙ ap to_lower (trim_space_idem s)

-- A line of characters that are no space is its text and the newline after it.
trim_right-line : (s : Text) → All (λ c. is_space c ≡ false) s → trim_right (s ++ 10 ∷ []) ≡ s
unfolding trim_right is_space
trim_right-line [] h = refl
trim_right-line (c ∷ s) h = rw (trim_right-line s h.1, h.0) refl

not_space : (c : ℕ) → leb 20000 c ≡ true → is_space c ≡ false
unfolding is_space
not_space c h = ground arith

not_spaces : (s : Text) → All (λ c. leb 20000 c ≡ true) s → All (λ c. is_space c ≡ false) s
not_spaces [] h = tt
not_spaces (c ∷ s) h = (not_space c h.0, not_spaces s h.1)

pub trim_space-line :
    (s : Text) → All (λ c. leb 20000 c ≡ true) s → is_nil s ≡ false → trim_space (s ++ 10 ∷ []) ≡ s
unfolding trim_space trim_left
trim_space-line [] h full = cc
trim_space-line (c ∷ s) h full =
    rw (not_space c h.0) (trim_right-line (c ∷ s) (not_spaces (c ∷ s) h))
