-- ===== src/Dto.antt =====
-- The protobuf messages of internal/domain/dto, a module for each.
pub mod Enums
pub mod Money
pub mod CardSummary
pub mod Payer
pub mod BookingSnapshot
pub mod CreateInvoicePaymentRequest
pub mod Card
pub mod PayWithCardRequest
pub mod PayWithCardResponse
pub mod BookingSummary
pub mod PayerSummary
pub mod PaymentOption
pub mod PaymentRequest
pub mod PaymentConfirmation
pub mod ReissuePaymentRequest
pub mod TimeEvent
