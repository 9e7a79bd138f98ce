-- ===== src/Go/Call/Keeps.antt =====
-- What a run keeps of the state, whatever it returns.
use kenshu_elaris_project_pa.Go.Call.{
  Outcome, ok, err, panicked, World, Call, of_outcome, catch, ◌>>=◌,
}

-- An operation that keeps P, and one that brings P about.
pub record Keeps {E T X A : Type 0} (P : World E T → Type 0) (m : Call E T X A) : Type 0 where
  pub kept : (w : World E T) → P w → P (m w).1

module _ {E T X A : Type 0} {P : World E T → Type 0} where
  sequel-kept :
      {B : Type 0} (f : A → Call E T X B) (o : Outcome X A) (w : World E T)
      → P w
      → ((a : A) → Keeps P (f a))
      → P ((of_outcome o >>= f) w).1
  sequel-kept f (ok a) w p hf = (hf a).kept w p
  sequel-kept f (err x) w p hf = p
  sequel-kept f panicked w p hf = p

  pub bind-Keeps :
      {B : Type 0} {m : Call E T X A} {f : A → Call E T X B}
      → Keeps P m
      → ((a : A) → Keeps P (f a))
      → Keeps P (m >>= f)
  bind-Keeps {B} {m} {f} hm hf = record {
    kept = λ w p. sequel-kept f (m w).0 (m w).1 (hm.kept w p) hf;
  }

  handled-kept :
      {Y : Type 0} (f : X → Call E T Y A) (o : Outcome X A) (w : World E T)
      → P w
      → ((x : X) → Keeps P (f x))
      → P (catch (of_outcome o) f w).1
  handled-kept f (ok a) w p hf = p
  handled-kept f (err x) w p hf = (hf x).kept w p
  handled-kept f panicked w p hf = p

  pub catch-Keeps :
      {Y : Type 0} {m : Call E T X A} {f : X → Call E T Y A}
      → Keeps P m
      → ((x : X) → Keeps P (f x))
      → Keeps P (catch m f)
  catch-Keeps {Y} {m} {f} hm hf = record {
    kept = λ w p. handled-kept f (m w).0 (m w).1 (hm.kept w p) hf;
  }
