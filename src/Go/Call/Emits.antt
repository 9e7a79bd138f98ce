-- ===== src/Go/Call/Emits.antt =====
-- What the calls of a run have in common, whatever it returns.
use mathlib.Core.List.{append_assoc, append-nil}
use kenshu_elaris_project_pa.Base.{◌≡◌, refl, sym, ap, ◌∙◌, List, [], ◌∷◌, ◌++◌, All, ◌&◌}
use kenshu_elaris_project_pa.Go.Call.{
  Outcome, ok, err, panicked, World, Act, Call, of_outcome, perform, catch, map_err, ◌>>=◌,
}

All-append : {T : Type 0} (P : T → Type 0) (xs ys : List T) → All P xs → All P ys → All P (xs ++ ys)
All-append P [] ys p q = q
All-append P (x ∷ xs) ys (p, ps) q = p & All-append P xs ys ps q

-- The trace `after` goes on from `before` with calls of which P holds.
pub record Extends {T : Type 0} (P : T → Type 0) (before after : List T) : Type 0 where
  pub calls : List T
  pub appended : after ≡ before ++ calls
  pub holds : All P calls

module _ {T : Type 0} {P : T → Type 0} where
  pub Extends-refl : (t : List T) → Extends P t t
  Extends-refl t = record { calls = []; appended = sym (append-nil t); holds = tt }

  pub Extends-trans : {a b c : List T} → Extends P a b → Extends P b c → Extends P a c
  Extends-trans {a} x y = record {
    calls = x.calls ++ y.calls;
    appended = y.appended ∙ ap (λ t. t ++ y.calls) x.appended ∙ append_assoc a x.calls y.calls;
    holds = All-append P x.calls y.calls x.holds y.holds;
  }

-- An operation all of whose calls have P.
pub record Emits {E T X A : Type 0} (P : T → Type 0) (m : Call E T X A) : Type 0 where
  pub emits : (w : World E T) → Extends P w.trace (m w).1.trace

module _ {E T X A : Type 0} {P : T → Type 0} where
  -- An operation without a call.
  pub silent : (m : Call E T X A) → ((w : World E T) → (m w).1.trace ≡ w.trace) → Emits P m
  silent m h = record {
    emits = λ w. record { calls = []; appended = h w ∙ sym (append-nil w.trace); holds = tt };
  }

  pub perform-Emits : (t : T) (act : Act E X A) → P t → Emits P (perform t act)
  perform-Emits t act p = record {
    emits = λ w. record { calls = t ∷ []; appended = refl; holds = p & tt };
  }

  sequel-Extends :
      {B : Type 0} (t : List T) (f : A → Call E T X B) (o : Outcome X A) (w : World E T)
      → Extends P t w.trace
      → ((a : A) → Emits P (f a))
      → Extends P t ((of_outcome o >>= f) w).1.trace
  sequel-Extends t f (ok a) w h hf = Extends-trans h ((hf a).emits w)
  sequel-Extends t f (err x) w h hf = h
  sequel-Extends t f panicked w h hf = h

  pub bind-Emits :
      {B : Type 0} {m : Call E T X A} {f : A → Call E T X B}
      → Emits P m
      → ((a : A) → Emits P (f a))
      → Emits P (m >>= f)
  bind-Emits {B} {m} {f} hm hf = record {
    emits = λ w. sequel-Extends w.trace f (m w).0 (m w).1 (hm.emits w) hf;
  }

  handled-Extends :
      {Y : Type 0} (t : List T) (f : X → Call E T Y A) (o : Outcome X A) (w : World E T)
      → Extends P t w.trace
      → ((x : X) → Emits P (f x))
      → Extends P t (catch (of_outcome o) f w).1.trace
  handled-Extends t f (ok a) w h hf = h
  handled-Extends t f (err x) w h hf = Extends-trans h ((hf x).emits w)
  handled-Extends t f panicked w h hf = h

  pub catch-Emits :
      {Y : Type 0} {m : Call E T X A} {f : X → Call E T Y A}
      → Emits P m
      → ((x : X) → Emits P (f x))
      → Emits P (catch m f)
  catch-Emits {Y} {m} {f} hm hf = record {
    emits = λ w. handled-Extends w.trace f (m w).0 (m w).1 (hm.emits w) hf;
  }

  mapped-Extends :
      {Y : Type 0} (t : List T) (f : X → Y) (o : Outcome X A) (w : World E T)
      → Extends P t w.trace
      → Extends P t (map_err f (of_outcome o) w).1.trace
  mapped-Extends t f (ok a) w h = h
  mapped-Extends t f (err x) w h = h
  mapped-Extends t f panicked w h = h

  pub map_err-Emits :
      {Y : Type 0} (f : X → Y) {m : Call E T X A} → Emits P m → Emits P (map_err f m)
  map_err-Emits f {m} hm = record {
    emits = λ w. mapped-Extends w.trace f (m w).0 (m w).1 (hm.emits w);
  }
