-- ===== src/Payment.antt =====
-- src/modules/payment/payment.service.ts: payments that the staff settles or refunds, and what the
-- gateway reports.
pub mod Service
pub mod Refunds
pub mod Fulfilment
pub mod Webhook
pub mod Create
