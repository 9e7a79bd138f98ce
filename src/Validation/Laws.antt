-- ===== src/Validation/Laws.antt =====
-- What Validate returns: nil when every step passes, and otherwise all that the steps report.
use mathlib.Core.List.{append-nil, append_assoc}
use kenshu_elaris_project_pa.Base.{
  ◌≡◌, refl, sym, ◌∙◌, ◌↔◌, true, false, Option, none, some, List, [], ◌∷◌, ◌++◌, arith, All,
  Option-cases, inl, inr,
}
use kenshu_elaris_project_pa.Base.Int.{ℤ, pos, ltb_ℤ}
use kenshu_elaris_project_pa.Go.Text.{GoString, is_blank}
use kenshu_elaris_project_pa.Go.Time.{Time}
use kenshu_elaris_project_pa.Errors.{
  GoError, constrain, joined, Errors, nil, cons, to_constrain, error_as,
}
use kenshu_elaris_project_pa.Validation.{
  Step, Validator, Value, int, blank_error, zero_error, is_zero, positive_error, is_nil, nil_error,
  pointer, precedence_error, join, validate_from, validate,
}

abbrev pub Passes : Step → Type 0
Passes step = step tt ≡ none

validate_from-none :
    (acc : Option GoError) (steps : List Step)
    → (validate_from acc steps ≡ none) ↔ ((acc ≡ none) × All Passes steps)
unfolding validate_from
validate_from-none acc [] = (λ e. (e, tt), λ h. h.0)
validate_from-none acc (step ∷ steps) = elim (Option-cases (step tt)) [
  | inl e ↦ rw e (
    λ h. let (a, b) = (validate_from-none acc steps).0 h in (a, (refl, b)),
    λ h. (validate_from-none acc steps).1 (h.0, h.1.1),
  )
  | inr (x, e) ↦ rw e (λ h. cc ((validate_from-none (some _) steps).0 h).0, λ h. cc (h.1.0))
]

-- Validate returns nil exactly when every step does.
pub validate-none_iff : (v : Validator) → (validate v ≡ none) ↔ All Passes v.steps
unfolding validate
validate-none_iff v = (
  λ h. ((validate_from-none none v.steps).0 h).1,
  λ h. (validate_from-none none v.steps).1 (refl, h),
)

-- The constraints that an error reports, in the order of its text.
mutual
  pub violations : GoError → List (GoString × GoString)
  violations (constrain f m) = (f, m) ∷ []
  violations (joined es) = all_violations es
  violations e = []

  pub all_violations : Errors → List (GoString × GoString)
  all_violations nil = []
  all_violations (cons e es) = violations e ++ all_violations es

abbrev pub reported : Option GoError → List (GoString × GoString)
reported none = []
reported (some e) = violations e

-- What the steps report one by one.
abbrev pub reports : List Step → List (GoString × GoString)
reports [] = []
reports (step ∷ steps) = reported (step tt) ++ reports steps

violations-join :
    (acc : Option GoError) (e : GoError) → violations (join acc e) ≡ reported acc ++ violations e
unfolding join violations all_violations
violations-join none e = append-nil _
violations-join (some old) e = rw append-nil

reported-validate_from :
    (acc : Option GoError) (steps : List Step)
    → reported (validate_from acc steps) ≡ reported acc ++ reports steps
unfolding validate_from
reported-validate_from acc [] = sym (append-nil _)
reported-validate_from acc (step ∷ steps) = elim (Option-cases (step tt)) [
  | inl e ↦ rw e (reported-validate_from acc steps)
  | inr (x, e) ↦
      rw e (reported-validate_from (some (join acc x)) steps ∙ simp (violations-join, append_assoc))
]

-- Validate drops no report and changes no order: its error lists what each step reports.
pub reported-validate : (v : Validator) → reported (validate v) ≡ reports v.steps
unfolding validate
reported-validate v = reported-validate_from none v.steps

-- The error of a step, if it has one, is or wraps a violated constraint.
abbrev pub IsConstraint : Option GoError → Type 0
IsConstraint none = Unit
IsConstraint (some e) = error_as to_constrain e ≡ true

validate_from-IsConstraint :
    (acc : Option GoError) (steps : List Step)
    → IsConstraint acc
    → All (λ step. IsConstraint (step tt)) steps
    → IsConstraint (validate_from acc steps)
unfolding validate_from join error_as
validate_from-IsConstraint acc [] h hs = h
validate_from-IsConstraint none (step ∷ steps) h (k, ks) =
    validate_from-IsConstraint _ steps (ground arith) ks
validate_from-IsConstraint (some old) (step ∷ steps) h (k, ks) =
    validate_from-IsConstraint _ steps (ground arith) ks

pub validate-IsConstraint :
    (v : Validator) → All (λ step. IsConstraint (step tt)) v.steps → IsConstraint (validate v)
unfolding validate
validate-IsConstraint v h = validate_from-IsConstraint none v.steps tt h

abbrev pub NotBlank : GoString → Type 0
NotBlank s = is_blank s ≡ false

abbrev pub IsPositive : ℤ → Type 0
IsPositive n = ltb_ℤ (pos 0) n ≡ true

-- A pointer that is not nil.
abbrev pub Present {ℓ} : {A : Type ℓ} → Option A → Type 0
Present none = ⊥
Present (some a) = Unit

-- When each of the steps passes.
module _ (field : GoString) where
  pub blank_error_iff : (s : GoString) → (blank_error field s ≡ none) ↔ NotBlank s
  unfolding blank_error
  blank_error_iff s = ground arith

  pub positive_error_int_iff : (n : ℤ) → (positive_error field (some (int n)) ≡ none) ↔ IsPositive n
  unfolding positive_error
  positive_error_int_iff n = ground arith

  pub nil_error_iff : (v : Option Value) → (nil_error field v ≡ none) ↔ (is_nil v ≡ false)
  unfolding nil_error
  nil_error_iff v = ground arith

  pub nil_error-pointer_iff {ℓ} :
      {A : Type ℓ} (o : Option A) → (nil_error field (pointer o) ≡ none) ↔ Present o
  unfolding nil_error
  nil_error-pointer_iff none = ground arith
  nil_error-pointer_iff (some a) = (λ e. tt, λ u. refl)

  pub zero_error_iff : (v : Value) → (zero_error field v ≡ none) ↔ (is_zero v ≡ false)
  unfolding zero_error
  zero_error_iff v = ground arith

  pub blank_error-IsConstraint : (s : GoString) → IsConstraint (blank_error field s)
  unfolding blank_error error_as
  blank_error-IsConstraint s = ground arith

  pub positive_error-IsConstraint : (v : Option Value) → IsConstraint (positive_error field v)
  unfolding positive_error error_as
  positive_error-IsConstraint none = refl
  positive_error-IsConstraint (some v) = ground arith

  pub nil_error-IsConstraint : (v : Option Value) → IsConstraint (nil_error field v)
  unfolding nil_error error_as
  nil_error-IsConstraint v = ground arith

  pub zero_error-IsConstraint : (v : Value) → IsConstraint (zero_error field v)
  unfolding zero_error error_as
  zero_error-IsConstraint v = ground arith

pub precedence_error_iff : (a b : Time) → (precedence_error a b ≡ none) ↔ (ltb_ℤ a b ≡ true)
unfolding precedence_error
precedence_error_iff a b = ground arith

pub precedence_error-IsConstraint : (a b : Time) → IsConstraint (precedence_error a b)
unfolding precedence_error error_as
precedence_error-IsConstraint a b = ground arith
