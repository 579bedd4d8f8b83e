-- ===== src/Tests.antt =====
-- Runs at concrete inputs.
mod Mails
mod Ticks
mod Simulations
mod Scripts
mod Calls
mod Programs
mod Outcomes
mod Servers
mod Limits
mod DeadLetters
mod Pools
mod Timers
