-- ===== src/Wallet.antt =====
-- src/modules/wallet: the balances of the customers and the ledger of their transactions.
mod Service
mod Balances
mod Updates
pub mod Moves
pub mod Conservation
pub mod Payments
pub mod Refinement
pub use Service.{Accounts, Faults, no_faults}
unfoldable pub use Service.{
  get_or_create_wallet, deposit, process_deduction, pay_for_booking, refund_booking, create_wallet,
}
unfoldable pub use Balances.{balance_of}
pub use Balances.{is_credit, credits, debits, IsBalanced}
