-- ===== src/Payments.antt =====
-- Online fee payments (web-server/src/financial/gateway-payments.service.ts): the tables, the
-- checkout and the settlement of a payment.
pub mod Tables
pub mod Settle
pub mod Checkout
pub mod Webhook
pub mod Verify
mod Tests
