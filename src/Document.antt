-- ===== src/Document.antt =====
-- The documents of internal/domain/document.
pub mod Invoice
pub mod Receipt
