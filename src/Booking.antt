-- ===== src/Booking.antt =====
-- src/modules/booking/booking.service.ts, in the order in which a reservation goes through it.
pub mod Slots
pub mod Pricing
pub mod Discount
pub mod Plan
pub mod Settle
pub mod Reserve
pub mod Reminders
pub mod Lifecycle
pub mod Status
pub mod Final
pub mod Availability
pub mod Create
pub mod Checkout
pub mod Order
pub mod Pay
pub mod PayBooking
pub mod Idempotency
