-- ===== src/Tests/Matching.antt =====
-- A matcher of patterns, as the runtime is documented to have one: it runs the operations of a
-- pattern on the components of a path, with a stack and the variables captured so far.
use kenshu_elaris_project_pa.Base.{
  ℕ, ◌≡◌, ◌∙◌, refl, ap, true, false, Option, none, some, List, [], ◌∷◌, ◌==◌, get_elem?,
  if◌then◌else◌,
}
use kenshu_elaris_project_pa.Go.Text.{GoString, text_eq}
use kenshu_elaris_project_pa.Go.Text.Laws.{text_eq_iff}
use kenshu_elaris_project_pa.Transport.Gateway.{PathParams, Pattern}
use kenshu_elaris_project_pa.Transport.Gateway.Link.{
  Literals, no_more, next_literal, Captures, literal, variable,
}

abbrev Next : Type 0
Next = List GoString → List GoString → PathParams → Option PathParams

-- The variable is bound, over what was bound before.
abbrev bind_to : GoString → GoString → PathParams → PathParams
bind_to name value params n = if text_eq name n then some value else params n

-- LitPush: the next component, if it is the literal.
abbrev lit_push : Option GoString → Next → Next
lit_push none next segments stack params = none
lit_push (some text) next [] stack params = none
lit_push (some text) next (s ∷ segments) stack params = elim (text_eq text s) [
  | true ↦ next segments (s ∷ stack) params
  | false ↦ none
]

-- Push: the next component.
abbrev push : Next → Next
push next [] stack params = none
push next (s ∷ segments) stack params = next segments (s ∷ stack) params

-- Capture: the top of the stack, under the name.
abbrev capture : Option GoString → Next → Next
capture none next segments stack params = none
capture (some name) next segments [] params = none
capture (some name) next segments (s ∷ stack) params =
    next segments (s ∷ stack) (bind_to name s params)

-- An operation with its operand; ConcatN is run for one component only, which it leaves.
abbrev exec : List GoString → ℕ → ℕ → Next → Next
exec pool op arg next =
    if op == 2
    then lit_push (get_elem? pool arg) next
    else (if op == 1
        then push next
        else (if op == 4 then next else capture (get_elem? pool arg) next))

abbrev finish : Next
finish [] stack params = some params
finish (s ∷ segments) stack params = none

abbrev run : List GoString → List ℕ → Next
run pool [] = finish
run pool (op ∷ []) = finish
run pool (op ∷ arg ∷ codes) = exec pool op arg (run pool codes)

abbrev pub matched : Pattern → List GoString → Option PathParams
matched pattern segments = run pattern.pool pattern.codes segments [] (λ name. none)

same_text : (s : GoString) → text_eq s s ≡ true
same_text s = (text_eq_iff s s).1 refl

module _ (pool : List GoString) where
  lit_push-same :
      (o : Option GoString) (text : GoString) (next : Next) (segments stack : List GoString)
      (params : PathParams)
      → o ≡ some text
      → lit_push o next (text ∷ segments) stack params ≡ next segments (text ∷ stack) params
  lit_push-same o text next segments stack params h =
      ap (λ o. lit_push o next (text ∷ segments) stack params) h
      ∙ ap
          (λ b. elim b as (λ x. Option PathParams) [
            | true ↦ next segments (text ∷ stack) params
            | false ↦ none
          ])
          (same_text text)

  run-Literals :
      (codes : List ℕ) (segments stack : List GoString) (params : PathParams)
      → Literals pool codes segments
      → run pool codes segments stack params ≡ some params
  run-Literals _ _ stack params no_more = refl
  run-Literals _ _ stack params (next_literal {i} {text} {codes} {segments} h rest) =
      lit_push-same (get_elem? pool i) text (run pool codes) segments stack params h
      ∙ run-Literals codes segments (text ∷ stack) params rest

  capture-same :
      (o : Option GoString) (name s : GoString) (next : Next) (segments stack : List GoString)
      (params : PathParams)
      → o ≡ some name
      → capture o next segments (s ∷ stack) params
        ≡ next segments (s ∷ stack) (bind_to name s params)
  capture-same o name s next segments stack params h = rw h refl

  bound : (name s : GoString) (params : PathParams) → bind_to name s params name ≡ some s
  bound name s params = rw (same_text name) refl

  run-Captures :
      (name value : GoString) (codes : List ℕ) (segments stack : List GoString)
      (params : PathParams)
      → Captures pool name value codes segments
      → (found : PathParams) × (run pool codes segments stack params ≡ some found)
        × (found name ≡ some value)
  run-Captures name value _ _ stack params (literal {i} {text} {codes} {segments} h rest) =
      let (found, ran, got) = run-Captures name value codes segments (text ∷ stack) params rest in
      (
        found,
        lit_push-same (get_elem? pool i) text (run pool codes) segments stack params h ∙ ran,
        got,
      )
  run-Captures name value _ _ stack params (variable {j} {codes} {segments} h rest) = (
    bind_to name value params,
    capture-same (get_elem? pool j) name value (run pool codes) segments stack params h
        ∙ run-Literals codes segments (value ∷ stack) (bind_to name value params) rest,
    bound name value params,
  )

pub matched-Captures :
    (pattern : Pattern) (segments : List GoString) (name value : GoString)
    → Captures pattern.pool name value pattern.codes segments
    → (params : PathParams) × (matched pattern segments ≡ some params) × (params name ≡ some value)
matched-Captures pattern segments name value h =
    run-Captures pattern.pool name value pattern.codes segments [] (λ name. none) h
