-- ===== src/Text/Laws.antt =====
-- Laws of the text functions.
use wsms_gateway.Base.{
  ℕ, ◌≡◌, refl, ◌↔◌, true, not, none, some, [], ◌∷◌, ◌++◌, arith, length, ◌==◌, ==_refl, inl, inr,
  Bool-cases, Option-cases,
}
use wsms_gateway.Models.Records.{Text}
use wsms_gateway.Text.{text_eq, has_prefix, drop, upper, cut, all, split}

pub text_eq_sound : (s t : Text) → text_eq s t ≡ true → s ≡ t
text_eq_sound [] [] h = refl
text_eq_sound [] (d ∷ t) h = cc
text_eq_sound (c ∷ s) [] h = cc
text_eq_sound (c ∷ s) (d ∷ t) h = ground (arith, text_eq_sound s t)

pub text_eq_refl : (s : Text) → text_eq s s ≡ true
text_eq_refl [] = refl
text_eq_refl (c ∷ s) = ground (arith, text_eq_refl s)

pub text_eq_iff : (s t : Text) → (text_eq s t ≡ true) ↔ (s ≡ t)
text_eq_iff s t = (text_eq_sound s t, λ e. rw e (text_eq_refl t))

pub has_prefix-drop : (s p : Text) → has_prefix s p ≡ true → s ≡ p ++ drop (length p) s
has_prefix-drop s [] h = refl
has_prefix-drop [] (p ∷ ps) h = cc
has_prefix-drop (c ∷ s) (p ∷ ps) h = ground (arith, has_prefix-drop s ps)

pub has_prefix-append : (p s : Text) → has_prefix (p ++ s) p ≡ true
has_prefix-append [] s = refl
has_prefix-append (c ∷ p) s = ground (arith, has_prefix-append p s)

pub drop-append : (p s : Text) → drop (length p) (p ++ s) ≡ s
drop-append [] s = refl
drop-append (c ∷ p) s = drop-append p s

pub upper_idem : (c : ℕ) → upper (upper c) ≡ upper c
unfolding upper
upper_idem c = ground arith

-- A text is cut at the first separator.
pub cut-append : (c : ℕ) (s t : Text) → cut c s ≡ none → cut c (s ++ c ∷ t) ≡ some (s, t)
cut-append c [] t h = ground (arith, ==_refl c)
cut-append c (d ∷ s) t h = ground (arith, cut-append c s t)

pub cut_sound : (c : ℕ) (s a b : Text) → cut c s ≡ some (a, b) → (s ≡ a ++ c ∷ b) × (cut c a ≡ none)
cut_sound c [] a b h = ground arith
cut_sound c (d ∷ s) a b h = elim (Bool-cases (d == c)) [
  | inl here ↦ ground arith
  | inr there ↦ elim (Option-cases (cut c s)) [
    | inl missing ↦ ground arith
    | inr ((x, y), found) ↦ ground (arith, cut_sound c s x y found)
  ]
]

-- A text of which no character is the separator is not cut.
pub cut_none : (c : ℕ) (s : Text) → all (λ d. not (d == c)) s ≡ true → cut c s ≡ none
cut_none c [] h = refl
cut_none c (d ∷ s) h = ground (arith, cut_none c s)

pub split_none : (c : ℕ) (s : Text) → all (λ d. not (d == c)) s ≡ true → split c s ≡ s ∷ []
unfolding split
split_none c [] h = refl
split_none c (d ∷ s) h = ground (arith, split_none c s)

pub split-append :
    (c : ℕ) (s t : Text) → all (λ d. not (d == c)) s ≡ true → split c (s ++ c ∷ t) ≡ s ∷ split c t
unfolding split
split-append c [] t h = ground (arith, ==_refl c)
split-append c (d ∷ s) t h = ground (arith, split-append c s t)
