-- ===== src/Live.antt =====
-- The live candles of pynecore_bybit/live_provider.py.
pub mod State
pub mod Dispatch
pub mod Backfill
pub mod Startup
pub mod Consumer
pub mod Kept
pub mod Order
pub mod Ends
pub mod Gap
pub mod Closing
pub mod Resume
pub mod Delivery
pub mod Handing
pub mod Reach
pub mod Recovery
pub mod Repeat
mod Samples
mod Examples
mod Faults
