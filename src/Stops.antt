-- ===== src/Stops.antt =====
-- The executions of a position's trading stop at the venue (pynecore_bybit/events.py): how one of them is
-- divided between the exits of the run that own it; and the search for those of the time the bot was down.
pub mod Slices
pub mod Shares
pub mod Identity
pub mod Downtime
pub mod Unbooked
pub mod Recovered
pub mod Tiling
pub mod Complete
mod Examples
