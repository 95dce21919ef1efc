-- ===== src/Logic.antt =====
-- internal/logic: the business logic over the repositories.
pub mod Audit
pub mod Frames
pub mod Publisher
pub mod Recalculate
pub mod Orders
pub mod Bills
pub mod Checkout
pub mod Listing
pub mod Refunds
pub mod Tickets
