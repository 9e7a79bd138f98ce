-- ===== src/Go/Text/Laws.antt =====
-- When a text is blank.
use mathlib.Core.List.{reverse-cons}
use kenshu_elaris_project_pa.Base.{
  ℕ, ◌≡◌, refl, sym, ◌∙◌, ◌↔◌, Bool, true, false, ◌&&◌, ◌||◌, [], ◌∷◌, ◌++◌, reverse, arith, leb,
}
use kenshu_elaris_project_pa.Go.Text.{
  GoString, text_eq, space_one, space_two, space_three, strip, trim_space, is_blank,
}

pub text_eq_iff : (s t : GoString) → (text_eq s t ≡ true) ↔ (s ≡ t)
unfolding text_eq
text_eq_iff [] [] = ground arith
text_eq_iff [] (b ∷ t) = ground arith
text_eq_iff (a ∷ s) [] = ground arith
text_eq_iff (a ∷ s) (b ∷ t) = ground (arith, text_eq_iff s t)

-- A printable ASCII byte other than the space.
abbrev pub is_solid : ℕ → Bool
is_solid a = leb 33 a && leb a 126

unfoldable pub has_solid : GoString → Bool
has_solid [] = false
has_solid (a ∷ s) = is_solid a || has_solid s

pub has_solid-append : (s t : GoString) → has_solid (s ++ t) ≡ (has_solid s || has_solid t)
unfolding has_solid
has_solid-append [] t = refl
has_solid-append (a ∷ s) t = ground (arith, has_solid-append s t)

-- Stripping white space keeps every solid byte, if no encoding of white space holds one.
module _ (two : ℕ → ℕ → Bool) (three : ℕ → ℕ → ℕ → Bool)
    (two_not_solid : (a b : ℕ) → two a b ≡ true → (is_solid a || is_solid b) ≡ false)
    (three_not_solid : (a b c : ℕ)
      → three a b c ≡ true
      → (is_solid a || (is_solid b || is_solid c)) ≡ false) where
  has_solid-strip : (s : GoString) → has_solid s ≡ has_solid (strip two three s)
  unfolding has_solid strip space_one
  has_solid-strip [] = refl
  has_solid-strip (a ∷ []) = ground arith
  has_solid-strip (a ∷ b ∷ []) = ground (arith, has_solid-strip (b ∷ []), two_not_solid a b)
  has_solid-strip (a ∷ b ∷ c ∷ s) = ground (
    arith,
    has_solid-strip (b ∷ c ∷ s),
    has_solid-strip (c ∷ s),
    has_solid-strip s,
    two_not_solid a b,
    three_not_solid a b c,
  )

space_two_not_solid : (a b : ℕ) → space_two a b ≡ true → (is_solid a || is_solid b) ≡ false
unfolding space_two
space_two_not_solid a b h = ground arith

space_three_not_solid :
    (a b c : ℕ) → space_three a b c ≡ true → (is_solid a || (is_solid b || is_solid c)) ≡ false
unfolding space_three
space_three_not_solid a b c h = ground arith

has_solid-reverse : (s : GoString) → has_solid (reverse s) ≡ has_solid s
unfolding has_solid
has_solid-reverse [] = refl
has_solid-reverse (a ∷ s) =
    simp (reverse-cons, has_solid-append, has_solid-reverse s) (ground arith)

has_solid-trim_space : (s : GoString) → has_solid (trim_space s) ≡ has_solid s
unfolding trim_space
has_solid-trim_space s =
    has_solid-reverse _
    ∙ sym (
        has_solid-strip (λ a b. space_two b a) (λ a b c. space_three c b a)
          (λ a b h. ground (arith, space_two_not_solid b a h))
          (λ a b c h. ground (arith, space_three_not_solid c b a h))
          (reverse (strip space_two space_three s)))
    ∙ has_solid-reverse _
    ∙ sym (has_solid-strip space_two space_three space_two_not_solid space_three_not_solid s)

-- A text with a printable byte is not blank.
pub not_blank_of_has_solid : (s : GoString) → has_solid s ≡ true → is_blank s ≡ false
unfolding is_blank has_solid text_eq
not_blank_of_has_solid s h = go (trim_space s) (has_solid-trim_space s ∙ h)
  where
    go : (t : GoString) → has_solid t ≡ true → text_eq t [] ≡ false
    go [] e = cc
    go (a ∷ t) e = refl

-- The empty text is blank.
pub nil_blank : is_blank [] ≡ true
unfolding is_blank
nil_blank = refl
