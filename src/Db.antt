-- ===== src/Db.antt =====
-- internal/infra/db: the repositories over MongoDB collections, which are a parameter.
pub mod InvoiceRepo
pub mod ReceiptRepo
pub mod Collection
