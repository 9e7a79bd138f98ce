-- ===== src/Go/Call.antt =====
-- A call of a Go function that returns (A, error), reads and changes the world outside, and may
-- panic.
pub mod Emits
pub mod Keeps
use kenshu_elaris_project_pa.Base.{◌≡◌, refl, ap, List, [], ◌∷◌, ◌++◌}

-- `err` leaves out the value that Go returns beside an error.
pub data Outcome (X A : Type 0) : Type 0 where
  ok : A → Outcome X A
  err : X → Outcome X A
  panicked : Outcome X A

-- The state of what lies outside the program, and the calls made so far that may change it, the
-- last one last.
pub record World (E T : Type 0) : Type 0 where
  pub env : E
  pub trace : List T

-- An operation of the outside.
abbrev pub Act : Type 0 → Type 0 → Type 0 → Type 0
Act E X A = E → Outcome X A × E

abbrev pub Call : Type 0 → Type 0 → Type 0 → Type 0 → Type 0
Call E T X A = World E T → Outcome X A × World E T

module _ {E T X A : Type 0} where
  abbrev pub pure : A → Call E T X A
  pure a w = (ok a, w)

  abbrev pub throw : X → Call E T X A
  throw x w = (err x, w)

  abbrev pub of_outcome : Outcome X A → Call E T X A
  of_outcome o w = (o, w)

  -- An outgoing call that may change what lies outside: the trace records it, whatever it returns.
  abbrev pub perform : T → Act E X A → Call E T X A
  perform t act w = let (o, e) = act w.env in (o, record { env = e; trace = w.trace ++ t ∷ [] })

  -- An outgoing call that changes nothing outside, which the trace leaves out.
  abbrev pub query : Act E X A → Call E T X A
  query act w = let (o, e) = act w.env in (o, record w { env = e })

  -- A source of values that cannot fail, such as a random number.
  abbrev pub draw : (E → A × E) → Call E T X A
  draw next w = let (a, e) = next w.env in (ok a, record w { env = e })

infixl 5 ◌>>=◌ ◌>>◌
abbrev pub ◌>>=◌ : {E T X A B : Type 0} → Call E T X A → (A → Call E T X B) → Call E T X B
◌>>=◌ m f w =
    let (o, w') = m w in elim o [ ok a ↦ f a w' | err x ↦ (err x, w') | panicked ↦ (panicked, w') ]

abbrev pub ◌>>◌ : {E T X A B : Type 0} → Call E T X A → Call E T X B → Call E T X B
m >> k = m >>= λ _. k

-- `if err != nil { return …, f(err) }`
abbrev pub map_err : {E T X Y A : Type 0} → (X → Y) → Call E T X A → Call E T Y A
map_err f m w =
    let (o, w') = m w in
    elim o [ ok a ↦ (ok a, w') | err x ↦ (err (f x), w') | panicked ↦ (panicked, w') ]

-- `if err != nil { handler }`, where the handler ends the function.
abbrev pub catch : {E T X Y A : Type 0} → Call E T X A → (X → Call E T Y A) → Call E T Y A
catch m h w =
    let (o, w') = m w in elim o [ ok a ↦ (ok a, w') | err x ↦ h x w' | panicked ↦ (panicked, w') ]

-- The three cases of an outcome, with the equation.
pub data OutcomeCases {X A : Type 0} (o : Outcome X A) : Type 0 where
  is_ok : (a : A) → o ≡ ok a → OutcomeCases o
  is_err : (x : X) → o ≡ err x → OutcomeCases o
  is_panicked : o ≡ panicked → OutcomeCases o

pub Outcome-cases : {X A : Type 0} (o : Outcome X A) → OutcomeCases o
Outcome-cases (ok a) = is_ok a refl
Outcome-cases (err x) = is_err x refl
Outcome-cases panicked = is_panicked refl

-- A run that returned has run all its parts.
pub bind-eq-ok :
    {E T X A B : Type 0} (m : Call E T X A) (f : A → Call E T X B) (w : World E T) {b : B}
    {w' : World E T}
    → (m >>= f) w ≡ (ok b, w')
    → (a : A) × (w₁ : World E T) × (m w ≡ (ok a, w₁)) × (f a w₁ ≡ (ok b, w'))
bind-eq-ok {E} {T} {X} {A} {B} m f w {b} {w'} h = go (m w).0 (m w).1 refl h
  where
    go :
        (o : Outcome X A) (w₁ : World E T)
        → m w ≡ (o, w₁)
        → ◌≡◌ {A = Outcome X B × World E T}
            (elim o [ ok a ↦ f a w₁ | err x ↦ (err x, w₁) | panicked ↦ (panicked, w₁) ])
            (ok b, w')
        → (a : A) × (w₁ : World E T) × (m w ≡ (ok a, w₁)) × (f a w₁ ≡ (ok b, w'))
    go (ok a) w₁ e h = (a, w₁, e, h)
    go (err x) w₁ e h = cc
    go panicked w₁ e h = cc

module _ {E T X A : Type 0} where
  -- A part that has returned hands on its value and its state, and one that has failed ends the run.
  pub bind-ok :
      {B : Type 0} (m : Call E T X A) (f : A → Call E T X B) (w : World E T) {a : A}
      {w' : World E T}
      → m w ≡ (ok a, w')
      → (m >>= f) w ≡ f a w'
  bind-ok m f w h = ap (λ p. ((λ v. p) >>= f) w) h

  pub bind-err :
      {B : Type 0} (m : Call E T X A) (f : A → Call E T X B) (w : World E T) {x : X}
      {w' : World E T}
      → m w ≡ (err x, w')
      → (m >>= f) w ≡ (err x, w')
  bind-err m f w h = ap (λ p. ((λ v. p) >>= f) w) h

  pub map_err-err :
      {Y : Type 0} (f : X → Y) (m : Call E T X A) (w : World E T) {x : X} {w' : World E T}
      → m w ≡ (err x, w')
      → map_err f m w ≡ (err (f x), w')
  map_err-err f m w h = ap (λ p. map_err f (λ v. p) w) h

  -- What is done with the result alone leaves the state as it is.
  returned-world :
      {B : Type 0} (f : A → B) (o : Outcome X A) (w : World E T)
      → ((of_outcome o >>= λ a. pure (f a)) w).1 ≡ w
  returned-world f (ok a) w = refl
  returned-world f (err x) w = refl
  returned-world f panicked w = refl

  pub bind-pure_world :
      {B : Type 0} (m : Call E T X A) (f : A → B) (w : World E T)
      → ((m >>= λ a. pure (f a)) w).1 ≡ (m w).1
  bind-pure_world m f w = returned-world f (m w).0 (m w).1

  recovered-world :
      (Y : Type 0) (f : X → A) (o : Outcome X A) (w : World E T)
      → (catch {Y = Y} (of_outcome o) (λ x. pure (f x)) w).1 ≡ w
  recovered-world Y f (ok a) w = refl
  recovered-world Y f (err x) w = refl
  recovered-world Y f panicked w = refl

  pub catch-pure_world :
      (Y : Type 0) (m : Call E T X A) (f : X → A) (w : World E T)
      → (catch {Y = Y} m (λ x. pure (f x)) w).1 ≡ (m w).1
  catch-pure_world Y m f w = recovered-world Y f (m w).0 (m w).1

  -- A part that hands its error on under another form has returned what the part itself has.
  mapped-ok :
      {Y : Type 0} (f : X → Y) (o : Outcome X A) (v w' : World E T) (a : A)
      → map_err f (of_outcome o) v ≡ (ok a, w')
      → ◌≡◌ {A = Outcome X A × World E T} (o, v) (ok a, w')
  mapped-ok f (ok b) v w' a h = cc
  mapped-ok f (err x) v w' a h = absurd cc
  mapped-ok f panicked v w' a h = absurd cc

  pub map_err-eq-ok :
      {Y : Type 0} (f : X → Y) (m : Call E T X A) (w w' : World E T) (a : A)
      → map_err f m w ≡ (ok a, w')
      → m w ≡ (ok a, w')
  map_err-eq-ok f m w w' a h = mapped-ok f (m w).0 (m w).1 w' a h
