-- ===== src/App.antt =====
-- internal/app: the services.
pub mod Grpc
pub mod Util
pub mod Mapper
pub mod RequestCheck
pub mod Unmarshal
pub mod InvoiceService
pub mod PaymentMaking
pub mod PaymentReissue
pub mod Init
