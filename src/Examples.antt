-- ===== src/Examples.antt =====
-- Concrete inputs, and each theorem that has hypotheses at one of them.
pub mod Samples
mod Plans
mod Positions
mod Entries
mod Monitors
mod Tables
mod Orders
mod Days
mod Health
mod Guards
mod Accounts
mod Intents
mod Closing
mod Scans
mod Silence
mod Feeds
mod Looks
mod Trades
mod Watch
