-- ===== src/Fakes.antt =====
-- The fakes of the repository: internal/app/fakes and the packages fakes below internal/infra. A fake
-- counts the calls of a method, keeps the last arguments, and hands the call on to a function, if the
-- function is set.
pub mod Db
pub mod Mq
pub mod App
use kenshu_elaris_project_pa.Base.{Option, none, some}
use kenshu_elaris_project_pa.Go.Call.{ok, Act}

-- `if f.Fn != nil { return f.Fn(…) }; return zero, nil`
abbrev pub or_zero : {S X A : Type 0} → Option (Act S X A) → A → Act S X A
or_zero none zero s = (ok zero, s)
or_zero (some fn) zero s = fn s

-- What acts on the outside S, beside which a C keeps the calls.
abbrev pub beside : {C S A : Type 0} → (S → A × S) → C × S → A × (C × S)
beside act (c, s) = let (a, s') = act s in (a, (c, s'))

-- A method that notes its call first.
abbrev pub noting : {C S X A : Type 0} → (C → C) → Act S X A → Act (C × S) X A
noting note act (c, s) = beside act (note c, s)
