-- ===== src/Validation.antt =====
-- internal/app/validation: a validator collects steps, and Validate joins the errors of all of them.
pub mod Laws
use kenshu_elaris_project_pa.Base.{
  ℕ, Bool, true, false, ◌&&◌, ◌||◌, Option, none, some, List, [], ◌∷◌, ◌++◌, leb, ltb, ◌==◌,
  if◌then◌else◌,
}
use kenshu_elaris_project_pa.Base.Int.{ℤ, pos, ltb_ℤ, leb_ℤ}
use kenshu_elaris_project_pa.Go.Text.{GoString, lit, is_blank}
use kenshu_elaris_project_pa.Go.Time.{Time, after, equal}
use kenshu_elaris_project_pa.Errors.{GoError, constrain, joined, Errors, nil, cons}

-- A step is a closure that may return an error.
abbrev pub Step : Type 0
Step = Unit {0} → Option GoError

pub record Validator : Type 0 where
  pub steps : List Step

-- validator.New
unfoldable pub new_validator : Validator
new_validator = record { steps = [] }

-- A value held by an `any`, as far as package reflect tells values apart: integers, unsigned
-- integers, floats (by their 64 bits), strings, instants, and references with whether they are nil.
pub data Value : Type 0 where
  int : ℤ → Value
  uint : ℕ → Value
  float : ℕ → Value
  text : GoString → Value
  instant : Time → Value
  reference : Bool → Value

-- A pointer, slice or interface put into an `any`.
abbrev pub pointer {ℓ} : {A : Type ℓ} → Option A → Option Value
pointer none = some (reference true)
pointer (some a) = some (reference false)

unfoldable pub blank_error : GoString → GoString → Option GoError
blank_error field value =
    if is_blank value then some (constrain field (lit "must not be blank")) else none

-- reflect.Value.IsZero
unfoldable pub is_zero : Value → Bool
is_zero (int n) = leb_ℤ n (pos 0) && leb_ℤ (pos 0) n
is_zero (uint n) = n == 0
is_zero (float bits) = bits == 0
is_zero (text []) = true
is_zero (text (c ∷ s)) = false
is_zero (instant t) = leb_ℤ t (pos 0) && leb_ℤ (pos 0) t
is_zero (reference nil_ref) = nil_ref

unfoldable pub zero_error : GoString → Value → Option GoError
unfolding is_zero
zero_error field value =
    if is_zero value then some (constrain field (lit "must not be zero value")) else none

-- The test `> 0` on a number; `none` on what is no number. A float is positive if its sign bit is
-- clear and it is neither zero nor a NaN.
unfoldable pub is_positive? : Value → Option Bool
is_positive? (int n) = some (ltb_ℤ (pos 0) n)
is_positive? (uint n) = some (ltb 0 n)
is_positive? (float bits) = some (ltb 0 bits && leb bits 0x7FF0000000000000)
is_positive? (text s) = none
is_positive? (instant t) = none
is_positive? (reference nil_ref) = none

unfoldable pub positive_error : GoString → Option Value → Option GoError
unfolding is_positive?
positive_error field none = some (constrain field (lit "must be a number greater than 0"))
positive_error field (some value) = elim (is_positive? value) [
  | none ↦ some (constrain field (lit "must be a number greater than 0"))
  | some true ↦ none
  | some false ↦ some (constrain field (lit "must be greater than 0"))
]

unfoldable pub is_nil : Option Value → Bool
is_nil none = true
is_nil (some (reference nil_ref)) = nil_ref
is_nil (some value) = false

unfoldable pub nil_error : GoString → Option Value → Option GoError
unfolding is_nil
nil_error field value =
    if is_nil value then some (constrain field (lit "must not be nil")) else none

unfoldable pub precedence_error : Time → Time → Option GoError
unfolding after equal
precedence_error start end =
    if after start end || equal start end
    then some (constrain (lit "start") (lit "start date must be before end date"))
    else none

-- A call in a chain of methods, `v.NotBlank(field, value)` as `v ▷ not_blank field value`.
infixl 20 ◌▷◌
abbrev pub ◌▷◌ {ℓ κ} : {A : Type ℓ} {B : Type κ} → A → (A → B) → B
a ▷ f = f a

add_step : Option GoError → Validator → Validator
add_step result v = record v { steps = v.steps ++ (λ _. result) ∷ [] }

unfoldable pub not_blank : GoString → GoString → Validator → Validator
unfolding add_step
not_blank field value = add_step (blank_error field value)

unfoldable pub not_zero_value : GoString → Value → Validator → Validator
unfolding add_step
not_zero_value field value = add_step (zero_error field value)

unfoldable pub positive_value : GoString → Option Value → Validator → Validator
unfolding add_step
positive_value field value = add_step (positive_error field value)

unfoldable pub not_nil : GoString → Option Value → Validator → Validator
unfolding add_step
not_nil field value = add_step (nil_error field value)

-- bson.NilObjectID is the identifier of twelve zero bytes, as the number 0.
unfoldable pub not_nil_object_id : GoString → ℕ → Validator → Validator
unfolding add_step
not_nil_object_id field id =
    add_step (if id == 0 then some (constrain field (lit "must not be nil")) else none)

unfoldable pub valid_precedence : Time → Time → Validator → Validator
unfolding add_step
valid_precedence start end = add_step (precedence_error start end)

-- errors.Join(err, stepErr), which drops a nil.
join : Option GoError → GoError → GoError
join none e = joined (cons e nil)
join (some old) e = joined (cons old (cons e nil))

validate_from : Option GoError → List Step → Option GoError
unfolding join
validate_from acc [] = acc
validate_from acc (step ∷ steps) =
    validate_from (elim (step tt) [ none ↦ acc | some e ↦ some (join acc e) ]) steps

-- Validator.Validate; `none` is nil.
unfoldable pub validate : Validator → Option GoError
unfolding validate_from
validate v = validate_from none v.steps
