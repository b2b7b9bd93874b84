-- ===== src/Booking/Checkout.antt =====
-- `createBooking` of src/modules/booking/booking.service.ts with the payment that follows the creation
-- of the bookings, and with their deletion where the payment throws.
pub mod Touched
pub mod Holds
pub mod Ordered
pub mod Undone
use sports_venue_management.Common.{ℕ, Bool, Option, none, some, List, [], ◌∷◌, length}
use sports_venue_management.Common.Outcome.{
  Error, Result, ok, err, ◌>>=◌, or_throw, venue_not_found,
}
use sports_venue_management.Entities.{Booking, PaymentStatus, Venue}
use sports_venue_management.Mongo.{Mongo}
use sports_venue_management.Platform.{Platform}
use sports_venue_management.Booking.Pricing.{price_slots, total_raw_price}
use sports_venue_management.Booking.Plan.{payment_plan}
use sports_venue_management.Booking.Reserve.{delete_all, as_conflict}
use sports_venue_management.Booking.Create.{
  Context, CreateBody, GroupPrice, coupon_text, price_group, create_booking,
}
use sports_venue_management.Booking.Order.{Order, PayFaults}
use sports_venue_management.Booking.PayBooking.{PayBody, pay_group}

module _ (mongo : Mongo) where
  open mongo use {Docs, find_by_id}

  -- the arguments of `processGroupPayment`: the price and the plan that the bookings were created
  -- from, with the identifiers of a new payment
  unfoldable pub order_for :
      Context → ℕ × ℕ → CreateBody → Docs Venue → Platform mongo → Result Order
  unfolding price_group
  order_for x ids body venues p = do
    v ← or_throw (find_by_id venues body.venue_id) venue_not_found
    let prices = price_slots v body.day body.slots
    g ← price_group mongo x.now body.coupon_code (total_raw_price prices) p.coupons
    plan ← payment_plan v.minimum_deposit_amount body.custom_amount (length body.slots) g.final
    ok (record {
      user = x.user;
      group_id = x.group_id;
      amount = plan.amount_to_pay;
      due = g.final;
      is_deposit_only = plan.is_deposit_only;
      code = coupon_text body.coupon_code;
      payment_id = ids.0;
      transaction_id = ids.1;
      now = x.now;
    })

  -- `catch (payError)`: what was created is deleted
  unfoldable pub undo_group :
      List (ℕ × Booking)
      → Result PaymentStatus × Platform mongo
      → Result PaymentStatus × Platform mongo
  unfolding delete_all
  undo_group created (ok status, p) = (ok status, p)
  undo_group created (err e, p) =
      (err (as_conflict e), record p { bookings = delete_all mongo created p.bookings })

  unfoldable pub checkout :
      Bool
      → PayFaults
      → Context
      → ℕ × ℕ
      → Option ℕ
      → CreateBody
      → Docs Venue
      → Platform mongo
      → Result PaymentStatus × Platform mongo
  unfolding order_for undo_group
  checkout has_session f x ids wallet_amount body venues p =
      let (made, q) = create_booking mongo x body venues p in
      elim made [
        | err e ↦ (err e, q)
        | ok created ↦ elim (order_for x ids body venues p) [
          | err e ↦ undo_group created (err e, q)
          | ok o ↦
              let pay : PayBody = record {
                payment_method = body.payment_method;
                coupon_code = none;
                custom_amount = body.custom_amount;
                wallet_amount = wallet_amount;
              } in
              undo_group created (pay_group mongo has_session f pay o created q)
        ]
      ]
