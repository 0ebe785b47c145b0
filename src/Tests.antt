-- ===== src/Tests.antt =====
-- The theorems at concrete inputs.
mod World
mod Scores
mod Commitments
mod Requests
mod Gateways
mod Services
mod Payments
mod Deliveries
mod Routings
mod Scripts
mod Configs
mod Transactions
mod Validators
mod Epochs
mod Pollers
mod Joinings
