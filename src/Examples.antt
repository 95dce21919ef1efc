-- ===== src/Examples.antt =====
-- Runs of the model on concrete data, and the theorems at concrete arguments.
mod Data
mod Statuses
mod Tickets
mod Bills
mod Liveness
mod Checkout
mod Types
mod Paging
mod Services
mod Limits
