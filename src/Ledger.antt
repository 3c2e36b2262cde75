-- ===== src/Ledger.antt =====
-- The per-leg position ledger of pynecore_bybit/ledger.py.
pub mod State
pub mod Share
pub mod Record
pub mod Walk
pub mod Late
pub mod Advance
pub mod Bounds
pub mod Frame
pub mod Verdict
pub mod GivingUp
pub mod Settling
pub mod Netting
pub mod Sight
pub mod Rounds
pub mod Journal
pub mod LateShare
pub mod Kept
pub mod Reach
pub mod Charge
pub mod Doubt
pub mod Limits
mod Examples
