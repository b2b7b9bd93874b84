-- ===== src/Examples.antt =====
-- Concrete documents and requests on which the theorems are applied.
pub mod Data
mod Bookings
mod Prices
mod Money
mod Coupons
mod Access
mod Payments
mod Keys
mod Tokens
mod Board
mod Checkouts
mod Venues
mod Accounts
mod Reminders
mod Reports
