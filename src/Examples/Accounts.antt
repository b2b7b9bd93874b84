-- ===== src/Examples/Accounts.antt =====
-- The theorems on customers, administrators and the codes for addresses, applied.
use sports_venue_management.Common.{ℕ, ◌≤◌, ◌≡◌, refl, false, none, some, List, [], ◌∷◌, arith}
use sports_venue_management.Common.Outcome.{ok, err, bad_credentials}
use sports_venue_management.Common.Text.{text_eq, text_eq_refl}
use sports_venue_management.Entities.{Booking, Customer, active, suspended, system, Role}
use sports_venue_management.Mongo.{list_mongo}
use sports_venue_management.Mongo.ListStore.{get, matching}
use sports_venue_management.Wallet.{no_faults}
use sports_venue_management.Booking.Lifecycle.{SuspendFaults}
use sports_venue_management.Booking.Create.{check_customer}
use sports_venue_management.Redis.Values.{Values}
use sports_venue_management.Otp.Email.{codes_sent, send, codes_sent_at_most_four}
use sports_venue_management.User.{CustomerBody, Users, create_customer, update_my_profile}
use sports_venue_management.User.Suspended.{update_my_profile-check_customer}
use sports_venue_management.User.Phones.{
  HasUniquePhones, nothing, before, creating, Steps-HasUniquePhones,
}
use sports_venue_management.Auth.SignUp.{
  AdminUser, Hashing, find_admin, create_admin_user, login_dashboard, normalized_email,
}
use sports_venue_management.Auth.SignUp.Logins.{create_admin_user-login_dashboard}
use sports_venue_management.Examples.Data.{paid_booking, platform, now}

abbrev ali : Customer
ali = record {
  phone = some 11;
  email = none;
  email_confirmed = false;
  provider = some system;
  status = active;
}

abbrev users : Users list_mongo
users = record { customers = (7, ali) ∷ []; platform = platform paid_booking }

abbrev no_suspend_faults : SuspendFaults
no_suspend_faults = record { query = none; refund = λ i. no_faults; write = λ i. none }

abbrev suspending : CustomerBody
suspending = record { phone = none; status = some suspended }

abbrev suspended_users : Users list_mongo
suspended_users = record users { customers = (7, record ali { status = suspended }) ∷ [] }

update_my_profile-check_customer_example :
    let body : CustomerBody = record { phone = none; status = some active } in
    let answer = update_my_profile list_mongo none no_suspend_faults now 7 body suspended_users in
    (w : Customer) × (answer.0 ≡ ok w)
    × (get answer.1.customers 7 ≡ some w)
    × (w.status ≡ active)
    × (active ≡ active → check_customer (some w.status) ≡ ok tt)
unfolding get
update_my_profile-check_customer_example =
    update_my_profile-check_customer list_mongo no_suspend_faults now 7 active suspended_users
      (record ali { status = suspended }) refl

-- a second customer asks for the first one's phone
Steps-HasUniquePhones_example :
    HasUniquePhones list_mongo (create_customer list_mongo 11 8 ((7, ali) ∷ [])).1
unfolding get
Steps-HasUniquePhones_example =
    Steps-HasUniquePhones list_mongo
      (before (nothing ((7, ali) ∷ [])) (creating 11 8 ((7, ali) ∷ []) refl))
      (λ i j b c at_i at_j same. ground arith)

-- bcrypt's place is taken by texts that are their own hashes
abbrev plain : Hashing
plain = record { hash = λ text. text; compare = text_eq; compare-hash = text_eq_refl }

-- "a@b", and "A@B " at the login
abbrev address : List ℕ
address = 97 ∷ 64 ∷ 98 ∷ []

abbrev spelling : List ℕ
spelling = 65 ∷ 64 ∷ 66 ∷ 32 ∷ []

abbrev password : List ℕ
password = 120 ∷ 121 ∷ []

abbrev made : AdminUser
made = record { email = address; password = some password; role = Role.admin }

create_admin_user-login_dashboard_example :
    let after = (create_admin_user list_mongo plain address password none 5 []).1 in
    ((i : ℕ) × (login_dashboard list_mongo plain spelling password after ≡ ok (i, made)))
    × (text_eq (120 ∷ []) password ≡ false
        → login_dashboard list_mongo plain spelling (120 ∷ []) after ≡ err bad_credentials)
unfolding create_admin_user find_admin normalized_email get matching
create_admin_user-login_dashboard_example =
    create_admin_user-login_dashboard list_mongo plain address spelling password (120 ∷ []) none 5
      [] (5, made) refl refl refl

abbrev nothing_kept : Values
nothing_kept key = none

codes_sent_at_most_four_example :
    codes_sent 9
      (send 1000 111111 9
        ∷ send 200000 222222 9
        ∷ send 400000 333333 9
        ∷ send 600000 444444 9
        ∷ send 800000 555555 9
        ∷ send 99000000 666666 9
        ∷ [])
      nothing_kept
    ≤ 4
codes_sent_at_most_four_example =
    codes_sent_at_most_four 9
      (send 1000 111111 9
        ∷ send 200000 222222 9
        ∷ send 400000 333333 9
        ∷ send 600000 444444 9
        ∷ send 800000 555555 9
        ∷ send 99000000 666666 9
        ∷ [])
      nothing_kept (tt, (tt, (tt, (tt, (tt, (tt, tt)))))) refl
