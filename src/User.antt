-- ===== src/User.antt =====
-- src/modules/user/user.service.ts: customers, and what a change of their status does to their bookings.
-- Names, pictures, languages and notifications are left out.
pub mod Suspended
pub mod Phones
use sports_venue_management.Common.{
  ℕ, Bool, true, false, not, ◌||◌, Option, none, some, List, first, filter, ◌==◌, if◌then◌else◌,
}
use sports_venue_management.Common.Outcome.{
  Error, Result, ok, err, customer_not_found, customer_exists, phone_taken,
}
use sports_venue_management.Entities.{
  Customer, CustomerStatus, active, hold, suspended, inactive, archived, customer_status_eq, system,
}
use sports_venue_management.Mongo.{Mongo}
use sports_venue_management.Wallet.{Faults}
use sports_venue_management.Platform.{Platform}
use sports_venue_management.Booking.Lifecycle.{SuspendFaults, cancel_upcoming}

-- the fields of `UpdateCustomerUserDto` that others depend on
pub record CustomerBody : Type 0 where
  pub phone : Option ℕ
  pub status : Option CustomerStatus

abbrev pub has_phone : ℕ → Customer → Bool
has_phone p c = elim c.phone [ none ↦ false | some q ↦ q == p ]

-- `$set` of the fields that were given
unfoldable pub patch_customer : CustomerBody → Customer → Customer
patch_customer body c = record c {
  phone = elim body.phone [ none ↦ c.phone | some p ↦ some p ];
  status = elim body.status [ none ↦ c.status | some s ↦ s ];
}

-- the customer whom the request leaves suspended was not
unfoldable pub is_newly_suspended : CustomerBody → Customer → Bool
is_newly_suspended body c = elim body.status [
  | some suspended ↦ not (customer_status_eq suspended c.status)
  | _ ↦ false
]

module _ (mongo : Mongo) where
  open mongo use {Docs, find_by_id, find, update, insert}

  -- the collection of customers, and what the bookings' service changes
  pub record Users : Type 0 where
    pub customers : Docs Customer
    pub platform : Platform mongo

  unfoldable pub find_phone : ℕ → Docs Customer → Option (ℕ × Customer)
  find_phone p d = first (find (has_phone p) d)

  -- the same, with `_id: { $ne: id }`
  unfoldable pub find_other_phone : ℕ → ℕ → Docs Customer → Option (ℕ × Customer)
  find_other_phone id p d = first (filter (λ e. not (e.0 == id)) (find (has_phone p) d))

  unfoldable pub create_customer : ℕ → ℕ → Docs Customer → Result Customer × Docs Customer
  unfolding find_phone
  create_customer p fresh d = elim (find_phone p d) [
    | some e ↦ (err customer_exists, d)
    | none ↦
        let c : Customer = record {
          phone = some p;
          email = none;
          email_confirmed = false;
          provider = some system;
          status = active;
        } in
        (ok c, insert fresh c d)
  ]

  -- `phone && phone !== customer.phone`, and then the search for another customer with it
  unfoldable pub check_phone : ℕ → Option ℕ → Customer → Docs Customer → Result (Unit {0})
  unfolding find_other_phone
  check_phone id none c d = ok tt
  check_phone id (some p) c d =
      if (p == 0) || has_phone p c
      then ok tt
      else elim (find_other_phone id p d) [ none ↦ ok tt | some e ↦ err phone_taken ]

  -- `updateCustomerUser`; `fault` is what the write of the customer throws, and `faults` what the
  -- refunds meet
  unfoldable pub update_customer_user :
      Option Error → SuspendFaults → ℕ → ℕ → CustomerBody → Users → Result Customer × Users
  unfolding check_phone patch_customer is_newly_suspended
  update_customer_user fault faults now id body u = elim (find_by_id u.customers id) [
    | none ↦ (err customer_not_found, u)
    | some c ↦ elim (check_phone id body.phone c u.customers) [
      | err e ↦ (err e, u)
      | ok fine ↦ elim fault [
        | some e ↦ (err e, u)
        | none ↦ (
          ok (patch_customer body c),
          record {
            customers = update id (patch_customer body) u.customers;
            platform =
                if is_newly_suspended body c
                then cancel_upcoming mongo faults now id u.platform
                else u.platform;
          },
        )
      ]
    ]
  ]

  -- `updateMyProfile` of user.controller.ts: a customer's own request goes the same way
  unfoldable pub update_my_profile :
      Option Error → SuspendFaults → ℕ → ℕ → CustomerBody → Users → Result Customer × Users
  unfolding update_customer_user
  update_my_profile fault faults now self body u = update_customer_user fault faults now self body u
