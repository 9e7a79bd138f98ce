-- ===== src/Dto/Enums.antt =====
-- The enums of internal/domain/dto: open enums over int32.
use kenshu_elaris_project_pa.Base.Int.{ℤ, pos}

abbrev pub PaymentMethod : Type 0
PaymentMethod = ℤ

abbrev pub method_unspecified : PaymentMethod
method_unspecified = pos 0

abbrev pub method_credit_card : PaymentMethod
method_credit_card = pos 1

abbrev pub PaymentStatus : Type 0
PaymentStatus = ℤ

abbrev pub status_unspecified : PaymentStatus
status_unspecified = pos 0

abbrev pub status_succeeded : PaymentStatus
status_succeeded = pos 2

abbrev pub status_failed : PaymentStatus
status_failed = pos 3
