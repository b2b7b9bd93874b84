-- ===== src/Lib.antt =====
-- A verification library for the booking platform: customers reserve hours of sports venues, pay
-- from a wallet, through a gateway or at the venue, use coupons, and cancel; the staff settles,
-- refunds and suspends.
--
-- The parts and how they interact. A request to book passes the checks of its slots, the customer
-- and the venue, takes the lock of the venue's day (Redis), drops the customer's own holds, prices
-- the slots, applies a coupon, plans what has to be paid now, looks at the wallet and creates one
-- booking for each slot. Payments then settle the bookings of the group: from the wallet, in a
-- transaction or with compensation by hand, at the venue, or through the gateway, whose callbacks
-- confirm the bookings, or find them gone and pay the wallet. Cancellations, updates by hand,
-- suspensions, refunds of payments and the clean-up job change them later, and move money back
-- through the wallet.
--
--   Common     lists, tests, results, money in hundredths, texts
--   Mongo      what src/common/repositories/base-repo.ts asks of the document store; ListStore shows
--              that its laws can be met
--   Entities   the documents (src/modules/*/entities) and enumerations (src/common/enums)
--   Coupon     src/modules/coupon: coupon.service.ts and utils/coupon-calculator.utils.ts
--   Wallet     src/modules/wallet/wallet.service.ts: getOrCreateWallet, createWallet, deposit,
--              processDeduction, payForBooking, refundBooking
--   Redis, Otp src/common/services/redis/redis.service.ts and otp/otp.service.ts; Otp.Email is
--              sendEmailOTP of src/modules/auth/auth.service.ts
--   Platform   the collections that several services change
--   Auth       src/modules/auth/auth.service.ts (refreshToken, logout; SignUp: verifyCustomerOtp,
--              signUpWithGoogle, createAdminUser, loginDashboard) and
--              src/common/services/token/tokenService.ts (authenticateToken_fetchUser)
--   Payment    src/modules/payment/payment.service.ts: Service (markCashPaid, refundPayment), Create
--              (createPayment), Webhook and Fulfilment (handlePaymobWebhook)
--   Booking    src/modules/booking/booking.service.ts: Slots, Pricing, Discount, Plan, Reserve and
--              their composition Create (createBooking), Settle, Order and Pay
--              (processGroupPayment, processGroupPaymentCompensating), PayBooking (payBooking),
--              Checkout (createBooking with its payment), Idempotency (the keys of createBooking),
--              Availability (getAvailability), Lifecycle (cancelBooking,
--              cancelUpcomingBookingsForSuspendedUser, cleanExpiredAndNoShowBookings), Status
--              (updateStatus), Reminders (handleMatchReminders), Final (these operations, but for the
--              payments and reminders, as steps of one state machine)
--   Venue      src/modules/venue/venue.service.ts; Images and Amenities are its private helpers, Life
--              its calls as steps
--   User       src/modules/user/user.service.ts: createCustomer, updateCustomerUser, and
--              updateMyProfile of user.controller.ts
--   Advertisement
--              src/modules/advertisement/advertisement.service.ts: the life of an advertisement and
--              the dashboard's board with its cache (its texts, images and order are left out)
--   Reports    src/modules/reports/reports.service.ts: the totals of getRevenueReport
--   Examples   concrete documents on which the theorems are applied
--
-- A function of a service becomes a function of the same name in snake case from a state to a
-- result and a state; an exception is a constructor of Error, and what was written before it
-- stays.
--
-- Bounds. Amounts are whole hundredths of a pound with exact arithmetic, and `toFixed(2)` rounds
-- to the nearest one, a tie upwards; the sources compute in binary floating point. Hours, amounts,
-- identifiers and instants are natural numbers, the time zone of the process is UTC, and texts are
-- lists of ASCII codes. No definition needs fuel: every loop runs over a list or counts down.
--
-- Parameters. The document store is the record Mongo with its laws: single operations are atomic
-- and queries return exactly what fits. What the store and the driver throw is given by Faults and
-- by functions of the position in a loop. In the wallet these are the upsert and the writing of an
-- entry: the update of a balance, and the one that takes it back, are taken not to throw, and so
-- is the deletion of the kept boards, whose failure the source logs. Where other requests run
-- between a read and a write of the wallet or of a payment in the webhook, `meanwhile` is what
-- they do; elsewhere the day's lock or a single request is assumed.
--
-- Signatures of callbacks and of tokens are checked by libraries: the webhook takes the outcome of
-- the check, the functions of Auth take the payload that it returns. Whether the server offers
-- transactions is an argument of the payments; a transaction that is aborted leaves what was there
-- before, except for the payment, which the source creates outside it.
--
-- Not modelled: the fingerprint of a request, the reconciliation job, sockets and the delivery of
-- notifications, the counter of a customer's no-shows, listings, the reports but for the totals of
-- the revenue, the requests to the gateway, guards and decorators, texts in other languages and
-- addresses, file storage and mail.
pub mod Common
pub mod Mongo
pub mod Entities
pub mod Coupon
pub mod Wallet
pub mod Redis
pub mod Otp
pub mod Platform
pub mod Payment
pub mod Reports
pub mod Examples
pub mod Advertisement
pub mod Auth
pub mod Booking
pub mod Venue
pub mod User
