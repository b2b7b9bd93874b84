-- ===== src/User/Suspended.antt =====
-- What a suspension does, to the customer and to the bookings.
use sports_venue_management.Common.{ℕ, ◌≡◌, refl, true, none, some, List}
use sports_venue_management.Common.Outcome.{ok}
use sports_venue_management.Entities.{Booking, Customer, CustomerStatus, active}
use sports_venue_management.Mongo.{Mongo, IdIn, update_here}
use sports_venue_management.Platform.{Platform}
use sports_venue_management.Booking.Lifecycle.{SuspendFaults, is_upcoming}
use sports_venue_management.Booking.Create.{check_customer}
use sports_venue_management.User.{
  CustomerBody, patch_customer, Users, check_phone, update_customer_user, update_my_profile,
}

module _ (mongo : Mongo) where
  open mongo use {Docs, find_by_id, find, update, find_complete}

  -- every upcoming booking of the user is on the list
  abbrev AllListed : ℕ → ℕ → List (ℕ × Booking) → Docs Booking → Type 0
  AllListed now user xs d =
      (i : ℕ) (b : Booking) → find_by_id d i ≡ some b → is_upcoming now user b ≡ true → IdIn i xs

  -- A customer's own update of the profile is carried out with whatever status it asks for, also by a
  -- suspended customer, and an active customer passes the check of a request to book again.
  pub update_my_profile-check_customer :
      (f : SuspendFaults) (now self : ℕ) (s : CustomerStatus) (u : Users mongo) (c : Customer)
      → find_by_id u.customers self ≡ some c
      → let body : CustomerBody = record { phone = none; status = some s } in
        let answer = update_my_profile mongo none f now self body u in
        (w : Customer) × (answer.0 ≡ ok w)
        × (find_by_id answer.1.customers self ≡ some w)
        × (w.status ≡ s)
        × (s ≡ active → check_customer (some w.status) ≡ ok tt)
  unfolding update_my_profile patch_customer check_phone check_customer
  update_my_profile-check_customer f now self s u c stored =
      let body : CustomerBody = record { phone = none; status = some s } in
      (
        patch_customer body c,
        rw (update_my_profile, update_customer_user, stored) refl,
        rw (update_my_profile, update_customer_user, stored)
            (update_here mongo self (patch_customer body) u.customers c stored),
        refl,
        λ is_active. rw is_active refl,
      )
